-- ===== src/Contracts/Sequence/Lifecycle.antt =====
-- What a history is that `RuntimeInvocationSequenceValidator` accepts.
use ne_kiro.Prelude.{
  ℕ, ◌^◌, ◌∙◌, or_else-none, ◌+◌, ◌≤◌, ◌<◌, ◌≡◌, refl, sym, ap, subst, inl, inr, true, not, Option,
  none, some, List, [], ◌∷◌, arith, ◌==◌, if◌then◌else◌, reject_if, ok, length, Bool-cases,
  Option-cases,
}
use ne_kiro.Prelude.Int.{ℤ, pos, int_eq}
use ne_kiro.Prelude.Text.{text_eq}
use ne_kiro.Registry.Instance.{lifecycle_eq}
use ne_kiro.Contracts.Event.{
  Word, Word-discrete, word_eq, InvocationEvent, Schemas, same_context, valid_event,
  valid_transition, other_word, created, pending, routing, started, running, stream, succeeded,
  failed, canceled, timed_out,
}
use ne_kiro.Contracts.Sequence.{
  SequenceValidator, new_sequence, order_error, has_index, increment, accept_error, advance, accept,
  accept_all, already_terminal, invalid_event, wrong_sequence, context_changed,
}

-- The transitions of the lifecycle: from a status, by an event type, to a status.
pub data Moves : Word → Word → Word → Type 0 where
  routes : Moves pending routing routing
  starts : Moves routing started running
  streams : Moves running stream running
  succeeds : Moves running succeeded succeeded
  fails_routing : Moves routing failed failed
  fails_running : Moves running failed failed
  cancels_pending : Moves pending canceled canceled
  expires_pending : Moves pending timed_out timed_out
  cancels_routing : Moves routing canceled canceled
  expires_routing : Moves routing timed_out timed_out
  cancels_running : Moves running canceled canceled
  expires_running : Moves running timed_out timed_out

pending-Moves : (t to : Word) → valid_transition pending t to ≡ true → Moves pending t to
unfolding valid_transition Word-discrete
pending-Moves created to h = absurd (ground (arith, h))
pending-Moves pending to h = absurd (ground (arith, h))
pending-Moves routing to h =
    subst (λ w. Moves pending routing w) (sym ((word_eq.decides to routing).0 (ground (arith, h))))
      routes
pending-Moves started to h = absurd (ground (arith, h))
pending-Moves running to h = absurd (ground (arith, h))
pending-Moves stream to h = absurd (ground (arith, h))
pending-Moves succeeded to h = absurd (ground (arith, h))
pending-Moves failed to h = absurd (ground (arith, h))
pending-Moves canceled to h =
    subst (λ w. Moves pending canceled w) ((word_eq.decides canceled to).0 (ground (arith, h)))
      cancels_pending
pending-Moves timed_out to h =
    subst (λ w. Moves pending timed_out w) ((word_eq.decides timed_out to).0 (ground (arith, h)))
      expires_pending
pending-Moves (other_word x) to h = absurd (ground (arith, h))

routing-Moves : (t to : Word) → valid_transition routing t to ≡ true → Moves routing t to
unfolding valid_transition Word-discrete
routing-Moves created to h = absurd (ground (arith, h))
routing-Moves pending to h = absurd (ground (arith, h))
routing-Moves routing to h = absurd (ground (arith, h))
routing-Moves started to h =
    subst (λ w. Moves routing started w) (sym ((word_eq.decides to running).0 (ground (arith, h))))
      starts
routing-Moves running to h = absurd (ground (arith, h))
routing-Moves stream to h = absurd (ground (arith, h))
routing-Moves succeeded to h = absurd (ground (arith, h))
routing-Moves failed to h =
    subst (λ w. Moves routing failed w) ((word_eq.decides failed to).0 (ground (arith, h)))
      fails_routing
routing-Moves canceled to h =
    subst (λ w. Moves routing canceled w) ((word_eq.decides canceled to).0 (ground (arith, h)))
      cancels_routing
routing-Moves timed_out to h =
    subst (λ w. Moves routing timed_out w) ((word_eq.decides timed_out to).0 (ground (arith, h)))
      expires_routing
routing-Moves (other_word x) to h = absurd (ground (arith, h))

running-Moves : (t to : Word) → valid_transition running t to ≡ true → Moves running t to
unfolding valid_transition Word-discrete
running-Moves created to h = absurd (ground (arith, h))
running-Moves pending to h = absurd (ground (arith, h))
running-Moves routing to h = absurd (ground (arith, h))
running-Moves started to h = absurd (ground (arith, h))
running-Moves running to h = absurd (ground (arith, h))
running-Moves stream to h =
    subst (λ w. Moves running stream w) (sym ((word_eq.decides to running).0 (ground (arith, h))))
      streams
running-Moves succeeded to h =
    subst (λ w. Moves running succeeded w) ((word_eq.decides succeeded to).0 (ground (arith, h)))
      succeeds
running-Moves failed to h =
    subst (λ w. Moves running failed w) ((word_eq.decides failed to).0 (ground (arith, h)))
      fails_running
running-Moves canceled to h =
    subst (λ w. Moves running canceled w) ((word_eq.decides canceled to).0 (ground (arith, h)))
      cancels_running
running-Moves timed_out to h =
    subst (λ w. Moves running timed_out w) ((word_eq.decides timed_out to).0 (ground (arith, h)))
      expires_running
running-Moves (other_word x) to h = absurd (ground (arith, h))

valid_transition-Moves : (f t to : Word) → valid_transition f t to ≡ true → Moves f t to
valid_transition-Moves created t to h = unfold valid_transition in absurd (ground (arith, h))
valid_transition-Moves pending t to h = pending-Moves t to h
valid_transition-Moves routing t to h = routing-Moves t to h
valid_transition-Moves started t to h = unfold valid_transition in absurd (ground (arith, h))
valid_transition-Moves running t to h = running-Moves t to h
valid_transition-Moves stream t to h = unfold valid_transition in absurd (ground (arith, h))
valid_transition-Moves succeeded t to h = unfold valid_transition in absurd (ground (arith, h))
valid_transition-Moves failed t to h = unfold valid_transition in absurd (ground (arith, h))
valid_transition-Moves canceled t to h = unfold valid_transition in absurd (ground (arith, h))
valid_transition-Moves timed_out t to h = unfold valid_transition in absurd (ground (arith, h))
valid_transition-Moves (other_word x) t to h = unfold valid_transition in absurd (ground (arith, h))

-- How an event follows the one before it.
abbrev pub Follows : Option InvocationEvent → InvocationEvent → Type 0
Follows none e = (e.event_type ≡ created) × (e.status ≡ pending)
Follows (some last) e = (same_context last e ≡ true) × Moves last.status e.event_type e.status

abbrev pub chunks_after : InvocationEvent → ℕ → ℕ
chunks_after e k = if e.event_type == stream then k + 1 else k

-- The events continue a history of n events with k chunks that ended with `prev`.
abbrev pub Continues : ℕ → ℕ → Option InvocationEvent → List InvocationEvent → Type 0
Continues n k prev [] = Unit {0}
Continues n k prev (e ∷ es) =
    (e.sequence ≡ pos n)
    × Follows prev e
    × (e.event_type ≡ stream → e.chunk_index ≡ some (pos k))
    × Continues (n + 1) (chunks_after e k) (some e) es

-- A validator after n events with k chunks.
record IsAfter (n k : ℕ) (v : SequenceValidator) : Type 0 where
  sequence_counted : v.next_sequence ≡ pos n
  chunks_counted : v.next_chunk_index ≡ pos k
  chunks_bounded : k ≤ n

order-Follows :
    (prev : Option InvocationEvent) (e : InvocationEvent)
    → order_error prev e ≡ none
    → Follows prev e
unfolding order_error
order-Follows none e h = (
  (word_eq.decides e.event_type created).0 (ground arith),
  (word_eq.decides e.status pending).0 (ground arith),
)
order-Follows (some last) e h =
    let (h1, h2) = or_else-none (reject_if (not (same_context last e)) context_changed) _ h in
    (
      ground (arith, h1),
      valid_transition-Moves last.status e.event_type e.status (ground (arith, h2)),
    )

pub has_index-eq : (n : ℤ) (i : Option ℤ) → has_index n i ≡ true → i ≡ some n
unfolding has_index
has_index-eq n none h = cc
has_index-eq n (some i) h = ap some ((int_eq.decides i n).0 h)

pub increment_pos : (n : ℕ) → n + 1 < 2 ^ 63 → increment (pos n) ≡ pos (n + 1)
unfolding increment
increment_pos n h = ground (arith, h)

-- The checks of one event.
record Checked (e : InvocationEvent) (v : SequenceValidator) : Type 0 where
  sequence_checked : e.sequence ≡ v.next_sequence
  order_checked : Follows v.last e
  chunk_checked : e.event_type ≡ stream → e.chunk_index ≡ some v.next_chunk_index

checked :
    (schemas : Schemas) (e : InvocationEvent) (v : SequenceValidator)
    → accept_error schemas e v ≡ none
    → Checked e v
unfolding accept_error
checked schemas e v h =
    let (h1, t1) = or_else-none (reject_if v.terminal already_terminal) _ h in
    let (h2, t2) = or_else-none (reject_if (not (valid_event schemas e)) invalid_event) _ t1 in
    let (h3, t3) =
      or_else-none (reject_if (not (e.sequence == v.next_sequence)) wrong_sequence) _ t2 in
    let (h4, h5) = or_else-none (order_error v.last e) _ t3 in
    record {
      sequence_checked = (int_eq.decides e.sequence v.next_sequence).0 (ground (arith, h3));
      order_checked = order-Follows v.last e h4;
      chunk_checked = λ p.
          has_index-eq v.next_chunk_index e.chunk_index
            (ground (arith, h5, (word_eq.decides e.event_type stream).1 p));
    }

advance-IsAfter :
    (n k : ℕ) (e : InvocationEvent) (v : SequenceValidator)
    → n + 1 < 2 ^ 63
    → IsAfter n k v
    → IsAfter (n + 1) (chunks_after e k) (advance e v)
unfolding advance
advance-IsAfter n k e v b a = elim (Bool-cases (e.event_type == stream)) [
  | inl h ↦ rw h (record {
    sequence_counted = rw a.sequence_counted (increment_pos n b);
    chunks_counted = rw a.chunks_counted (increment_pos k (omega (arith, a.chunks_bounded, b)));
    chunks_bounded = omega (arith, a.chunks_bounded);
  })
  | inr h ↦ rw h (record {
    sequence_counted = rw a.sequence_counted (increment_pos n b);
    chunks_counted = a.chunks_counted;
    chunks_bounded = omega (arith, a.chunks_bounded);
  })
]

continued :
    (schemas : Schemas) (n k : ℕ) (es : List InvocationEvent) (v : SequenceValidator)
    {w : SequenceValidator}
    → n + length es < 2 ^ 63
    → IsAfter n k v
    → accept_all schemas es v ≡ ok w
    → Continues n k v.last es
unfolding accept_all accept advance
continued schemas n k [] v b a h = tt
continued schemas n k (e ∷ es) v {w} b a h = elim (Option-cases (accept_error schemas e v)) [
  | inr (x, p) ↦ absurd (ground (arith, h))
  | inl p ↦
      let c = checked schemas e v p in
      (
        c.sequence_checked ∙ a.sequence_counted,
        c.order_checked,
        λ q. c.chunk_checked q ∙ ap some a.chunks_counted,
        continued schemas (n + 1) (chunks_after e k) es (advance e v) {w = w} (omega (arith, b))
            (advance-IsAfter n k e v (omega (arith, b)) a) (ground (arith, h, p)),
      )
]

-- A history of fewer than 2^63 events that the validator accepts from its start is numbered from 0
-- without a gap, begins with created/pending, moves only along the transitions of the lifecycle,
-- none of which leaves a terminal status, keeps its context from each event to the next, and
-- numbers its stream chunks from 0 without a gap.
pub accept_all-Continues :
    (schemas : Schemas) (es : List InvocationEvent) {w : SequenceValidator}
    → length es < 2 ^ 63
    → accept_all schemas es new_sequence ≡ ok w
    → Continues 0 0 none es
accept_all-Continues schemas es b h =
    continued schemas 0 0 es new_sequence (omega (arith, b))
      (record { sequence_counted = refl; chunks_counted = refl; chunks_bounded = omega arith }) h
