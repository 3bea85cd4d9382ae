-- ===== src/Contracts/Stream/Numbered.antt =====
-- What a result stream is that `RuntimeResultStreamSequenceValidator` accepts, and when `Finish`
-- reports no error after it.
use ne_kiro.Prelude.{
  ℕ, ◌^◌, ◌∙◌, or_else-none, reject_if-none, ◌+◌, ◌≤◌, ◌<◌, ◌≡◌, ◌↔◌, refl, sym, ap, subst, inl,
  inr, Bool, true, false, not, ◌&&◌, none, some, List, [], ◌∷◌, arith, ◌==◌, if◌then◌else◌,
  reject_if, ok, length, Bool-cases, Option-cases,
}
use ne_kiro.Prelude.Int.{pos, int_eq, int_lt, int_beq}
use ne_kiro.Prelude.Text.{Text, text_eq}
use ne_kiro.Registry.Instance.{lifecycle_eq}
use ne_kiro.Contracts.Sequence.Lifecycle.{has_index-eq, increment_pos}
use ne_kiro.Contracts.Stream.{
  StreamEventType, accepted, chunk, stream_event_type_eq, StreamEvent, StreamValidator, new_stream,
  correlated, valid_stream_event, is_stream_terminal, stream_error, advance_stream, accept_stream,
  accept_stream_all, finish, finish_when, stream_closed, stream_terminal, invalid_stream_event,
  correlation_changed, wrong_stream_sequence, accepted_missing, accepted_repeated,
}

-- The events continue a stream of n events with k chunks.
abbrev pub Streams : StreamValidator → ℕ → ℕ → List StreamEvent → Type 0
Streams v n k [] = Unit {0}
Streams v n k (e ∷ es) =
    (correlated v e ≡ true)
    × (e.sequence ≡ pos n)
    × ((n ≡ 0) ↔ (e.event_type ≡ accepted))
    × (e.event_type ≡ chunk → e.chunk_index ≡ some (pos k))
    × (is_stream_terminal e.event_type ≡ true → es ≡ [])
    × Streams v (n + 1) (if e.event_type == chunk then k + 1 else k) es

-- A validator of v's stream after n events with k chunks.
record IsAfter (v : StreamValidator) (n k : ℕ) (w : StreamValidator) : Type 0 where
  same_stream : (e : StreamEvent) → correlated w e ≡ correlated v e
  sequence_counted : w.next_sequence ≡ pos n
  chunks_counted : w.next_chunk_index ≡ pos k
  chunks_bounded : k ≤ n

record Checked (e : StreamEvent) (w : StreamValidator) : Type 0 where
  live : w.terminal ≡ false
  correlation_checked : correlated w e ≡ true
  sequence_checked : e.sequence ≡ w.next_sequence
  beginning_checked : (w.next_sequence == pos 0 && not (e.event_type == accepted)) ≡ false
  repetition_checked : (int_lt (pos 0) w.next_sequence && e.event_type == accepted) ≡ false
  chunk_checked : e.event_type ≡ chunk → e.chunk_index ≡ some w.next_chunk_index

checked :
    (schema : StreamEvent → Bool) (e : StreamEvent) (w : StreamValidator)
    → stream_error schema e w ≡ none
    → Checked e w
unfolding stream_error
checked schema e w h =
    let (h1, t1) = or_else-none (reject_if w.closed stream_closed) _ h in
    let (h2, t2) = or_else-none (reject_if w.terminal stream_terminal) _ t1 in
    let (h3, t3) =
      or_else-none (reject_if (not (valid_stream_event schema e)) invalid_stream_event) _ t2 in
    let (h4, t4) = or_else-none (reject_if (not (correlated w e)) correlation_changed) _ t3 in
    let (h5, t5) =
      or_else-none (reject_if (not (e.sequence == w.next_sequence)) wrong_stream_sequence) _ t4 in
    let (h6, t6) =
      or_else-none
        (reject_if (w.next_sequence == pos 0 && not (e.event_type == accepted)) accepted_missing) _
        t5 in
    let (h7, h8) =
      or_else-none
        (reject_if (int_lt (pos 0) w.next_sequence && e.event_type == accepted) accepted_repeated) _
        t6 in
    record {
      live = reject_if-none _ _ h2;
      correlation_checked = ground (arith, h4);
      sequence_checked = (int_eq.decides e.sequence w.next_sequence).0 (ground (arith, h5));
      beginning_checked = reject_if-none _ _ h6;
      repetition_checked = reject_if-none _ _ h7;
      chunk_checked = λ p.
          has_index-eq w.next_chunk_index e.chunk_index
            (ground (arith, h8, (stream_event_type_eq.decides e.event_type chunk).1 p));
    }

begins :
    (n : ℕ) (t : StreamEventType)
    → (int_beq (pos n) (pos 0) && not (t == accepted)) ≡ false
    → (int_lt (pos 0) (pos n) && t == accepted) ≡ false
    → (n ≡ 0) ↔ (t ≡ accepted)
begins n t h k = (
  λ z. (stream_event_type_eq.decides t accepted).0 (ground (arith, h, z)),
  λ p. ground (arith, k, (stream_event_type_eq.decides t accepted).1 p),
)

advance_stream-IsAfter :
    (v : StreamValidator) (n k : ℕ) (e : StreamEvent) (w : StreamValidator)
    → n + 1 < 2 ^ 63
    → IsAfter v n k w
    → IsAfter v (n + 1) (if e.event_type == chunk then k + 1 else k) (advance_stream e w)
unfolding advance_stream correlated
advance_stream-IsAfter v n k e w b a = elim (Bool-cases (e.event_type == chunk)) [
  | inl h ↦ rw h (record {
    same_stream = a.same_stream;
    sequence_counted = rw a.sequence_counted (increment_pos n b);
    chunks_counted = rw a.chunks_counted (increment_pos k (omega (arith, a.chunks_bounded, b)));
    chunks_bounded = omega (arith, a.chunks_bounded);
  })
  | inr h ↦ rw h (record {
    same_stream = a.same_stream;
    sequence_counted = rw a.sequence_counted (increment_pos n b);
    chunks_counted = a.chunks_counted;
    chunks_bounded = omega (arith, a.chunks_bounded);
  })
]

terminal_last :
    (schema : StreamEvent → Bool) (es : List StreamEvent) (w : StreamValidator)
    {x : StreamValidator}
    → w.terminal ≡ true
    → accept_stream_all schema es w ≡ ok x
    → es ≡ []
unfolding accept_stream_all accept_stream
terminal_last schema [] w t h = refl
terminal_last schema (e ∷ es) w t h = elim (Option-cases (stream_error schema e w)) [
  | inr (y, p) ↦ absurd (ground (arith, h))
  | inl p ↦ absurd (ground (arith, (checked schema e w p).live, t))
]

streamed :
    (schema : StreamEvent → Bool) (v : StreamValidator) (n k : ℕ) (es : List StreamEvent)
    (w : StreamValidator) {x : StreamValidator}
    → n + length es < 2 ^ 63
    → IsAfter v n k w
    → accept_stream_all schema es w ≡ ok x
    → Streams v n k es
unfolding accept_stream_all accept_stream
streamed schema v n k [] w b a h = tt
streamed schema v n k (e ∷ es) w {x} b a h = elim (Option-cases (stream_error schema e w)) [
  | inr (y, p) ↦ absurd (ground (arith, h))
  | inl p ↦
      let c = checked schema e w p in
      let r : accept_stream_all schema es (advance_stream e w) ≡ ok x = ground (arith, h, p) in
      (
        sym (a.same_stream e) ∙ c.correlation_checked,
        c.sequence_checked ∙ a.sequence_counted,
        begins n e.event_type
            (subst (λ s. (s == pos 0 && not (e.event_type == accepted)) ≡ false) a.sequence_counted
              c.beginning_checked)
            (subst (λ s. (int_lt (pos 0) s && e.event_type == accepted) ≡ false) a.sequence_counted
              c.repetition_checked),
        λ q. c.chunk_checked q ∙ ap some a.chunks_counted,
        λ t. terminal_last schema es (advance_stream e w) (unfold advance_stream in t) r,
        streamed schema v (n + 1) (if e.event_type == chunk then k + 1 else k) es
            (advance_stream e w) {x = x} (omega (arith, b))
            (advance_stream-IsAfter v n k e w (omega (arith, b)) a) r,
      )
]

-- Whether the last event is terminal; `t` is returned where there is none.
abbrev pub ends_terminal : Bool → List StreamEvent → Bool
ends_terminal t [] = t
ends_terminal t (e ∷ es) = ends_terminal (is_stream_terminal e.event_type) es

accept_stream_all-ends :
    (schema : StreamEvent → Bool) (es : List StreamEvent) (v : StreamValidator)
    {w : StreamValidator}
    → v.closed ≡ false
    → accept_stream_all schema es v ≡ ok w
    → (w.closed ≡ false) × (w.terminal ≡ ends_terminal v.terminal es)
unfolding accept_stream_all accept_stream advance_stream
accept_stream_all-ends schema [] v {w} c h =
    let same : v ≡ w = cc h in
    (subst (λ x. x.closed ≡ false) same c, subst (λ x. x.terminal ≡ v.terminal) same refl)
accept_stream_all-ends schema (e ∷ es) v {w} c h = elim (Option-cases (stream_error schema e v)) [
  | inr (y, p) ↦ absurd (ground (arith, h))
  | inl p ↦ accept_stream_all-ends schema es (advance_stream e v) {w = w} c (ground (arith, h, p))
]

finish-terminal :
    (w : StreamValidator) (t : Bool)
    → (w.closed ≡ false) × (w.terminal ≡ t)
    → ((finish w).1 ≡ none) ↔ (t ≡ true)
unfolding finish finish_when
finish-terminal w t (c, e) = rw (c, e) (λ h. ground (arith, h), λ h. ground (arith, h))

-- A result stream of fewer than 2^63 events that the validator accepts from its start belongs to
-- one invocation, is numbered from 0 without a gap, has the accepted event first and only there,
-- numbers its chunks from 0 without a gap, and has nothing after a terminal event. `Finish` reports
-- no error after it exactly when its last event is terminal.
pub accept_stream_all-Streams :
    (schema : StreamEvent → Bool) (invocation_id root_task_id trace_id : Text)
    (es : List StreamEvent) {w : StreamValidator}
    → length es < 2 ^ 63
    → accept_stream_all schema es (new_stream invocation_id root_task_id trace_id) ≡ ok w
    → Streams (new_stream invocation_id root_task_id trace_id) 0 0 es
      × (((finish w).1 ≡ none) ↔ (ends_terminal false es ≡ true))
accept_stream_all-Streams schema i r t es {w} b h = (
  streamed schema (new_stream i r t) 0 0 es (new_stream i r t) {x = w} (omega (arith, b))
      (record {
        same_stream = λ e. refl;
        sequence_counted = refl;
        chunks_counted = refl;
        chunks_bounded = omega arith;
      })
      h,
  finish-terminal w (ends_terminal false es)
      (accept_stream_all-ends schema es (new_stream i r t) {w = w} refl h),
)
