-- ===== src/Catalog/Releases/Reachable.antt =====
-- release.go and postgres/store.go of the catalog: what a version is read with after
-- operations of owners.
use ne_kiro.Prelude.{
  ℕ, ◌≡◌, ◌⊎◌, ◌∙◌, refl, sym, ap, subst, inl, inr, Bool, true, false, Option, none, some, List, [],
  ◌∷◌, arith, ◌==◌, Result, ok, err, Bool-cases,
}
use ne_kiro.Prelude.Text.{Text, text_eq, text_beq_iff}
use ne_kiro.Catalog.Model.{
  PublicationStatus, ReleaseState, publication_status_eq, release_state_eq, CatalogError,
  AgentRelease, AgentVersion,
}
use ne_kiro.Catalog.Store.{
  Tables, empty_tables, VersionRow, Identity, is_version, is_release_of, register, transition,
  joined,
}
use ne_kiro.Catalog.Releases.{create_release}
use ne_kiro.Prelude.Table.{find_row, find_row-true}
use ne_kiro.Catalog.ReleaseService.{
  TrustStore, prepare_release, create_owned_release, verify_release, publish_release,
  suspend_release, revoke_release, after_check,
}
use ne_kiro.Prelude.{Time}
use ne_kiro.Catalog.Select.{Semver}
use ne_kiro.Catalog.Store.{get}
use ne_kiro.Catalog.Releases.Backed.{
  Backed, backed_by, empty_tables-Backed, register-Backed, is_version-key, is_release_of-key,
}
use ne_kiro.Catalog.Releases.Steps.{transition_release-Backed}
use ne_kiro.Catalog.Releases.Owners.{transition-Backed}
use ne_kiro.Catalog.Releases.Prepared.{
  prepare_release-PreparedFor, create_release-Backed, get-Selected,
}

-- An operation of an owner with its arguments: whether its statements reach the database, what the
-- store of trust holds when it is read, and the time.
pub data Operation : Type 0 where
  registers : Bool → AgentVersion → Operation
  transitions : Bool → Bool → Text → Text → Text → Time → Operation
  creates :
      TrustStore
      → Bool
      → Bool
      → Bool
      → Option Text
      → Text
      → Text
      → Text
      → Text
      → Text
      → Time
      → Operation
  verifies : TrustStore → TrustStore → Bool → Bool → Text → Text → Time → Operation
  publishes suspends revokes : TrustStore → Bool → Bool → Text → Text → Time → Operation

-- The tables after an operation.
unfoldable pub run : Semver → (Time → Time) → Operation → Tables → Tables
run sv column (registers sent value) db = (register column sent value db).0
run sv column (transitions publish sent agent_id version caller at) db =
    (transition column publish sent agent_id version caller at db).0
run sv column
      (creates trust read sent linked new_id caller provider_id agent_id version binding_id now)
      db =
    (create_owned_release sv trust column read sent linked new_id caller provider_id agent_id
      version binding_id now db).0
run sv column (verifies trust again read sent caller release_id now) db =
    (verify_release trust again column read sent caller release_id now db).0
run sv column (publishes trust read sent caller release_id now) db =
    (publish_release trust column read sent caller release_id now db).0
run sv column (suspends trust read sent caller release_id now) db =
    (suspend_release trust column read sent caller release_id now db).0
run sv column (revokes trust read sent caller release_id now) db =
    (revoke_release trust column read sent caller release_id now db).0

unfoldable pub run_all : Semver → (Time → Time) → List Operation → Tables → Tables
unfolding run
run_all sv column [] db = db
run_all sv column (op ∷ ops) db = run_all sv column ops (run sv column op db)

-- Checks write nothing.
after_check-Backed :
    {A : Type 0} (r : Result CatalogError A) (write : A → Tables × Result CatalogError AgentRelease)
    (db : Tables)
    → Backed db
    → ((a : A) → r ≡ ok a → Backed (write a).0)
    → Backed (after_check r write db).0
unfolding after_check
after_check-Backed (err e) write db b k = b
after_check-Backed (ok a) write db b k = k a refl

prepared_write :
    (column : Time → Time) (sv : Semver) (trust : TrustStore) (read sent linked : Bool)
    (new_id : Option Text) (caller provider_id agent_id version binding_id : Text) (now : Time)
    (r : AgentRelease) (db : Tables)
    → prepare_release sv trust
        (get read agent_id version db)
        new_id
        caller
        provider_id
        agent_id
        version
        binding_id
        now
      ≡ ok r
    → Backed db
    → Backed (create_release column sent linked r db).0
prepared_write column sv trust false sent linked new_id caller provider_id agent_id version
      binding_id now r db h b =
    let p =
      prepare_release-PreparedFor sv trust (get false agent_id version db) new_id caller provider_id
        agent_id version binding_id now r h in
    absurd (unread p.0 p.1)
  where
    unread : (value : AgentVersion) → get false agent_id version db ≡ ok value → ⊥
    unread value e = unfold get in cc e
prepared_write column sv trust true sent linked new_id caller provider_id agent_id version
      binding_id now r db h b =
    let p =
      prepare_release-PreparedFor sv trust (get true agent_id version db) new_id caller provider_id
        agent_id version binding_id now r h in
    create_release-Backed column sent linked p.0 agent_id version r db p.1 p.2 b

run-Backed :
    (sv : Semver) (column : Time → Time) (op : Operation) (db : Tables)
    → Backed db
    → Backed (run sv column op db)
unfolding run create_owned_release verify_release publish_release suspend_release revoke_release
run-Backed sv column (registers sent value) db b = register-Backed column sent value db b
run-Backed sv column (transitions publish sent agent_id version caller at) db b =
    transition-Backed column publish sent agent_id version caller at db b
run-Backed sv column
      (creates trust read sent linked new_id caller provider_id agent_id version binding_id now) db
      b =
    after_check-Backed _ (λ r. create_release column sent linked r db) db b
      (λ r e.
        prepared_write column sv trust read sent linked new_id caller provider_id agent_id version
          binding_id now r db e b)
run-Backed sv column (verifies trust again read sent caller release_id now) db b =
    after_check-Backed _ _ db b (λ (evidence : Option (List ℕ)) e.
      transition_release-Backed column sent release_id ReleaseState.verified evidence now db b)
run-Backed sv column (publishes trust read sent caller release_id now) db b =
    after_check-Backed _ _ db b
      (λ x e. transition_release-Backed column sent release_id ReleaseState.published none now db b)
run-Backed sv column (suspends trust read sent caller release_id now) db b =
    after_check-Backed _ _ db b
      (λ x e. transition_release-Backed column sent release_id ReleaseState.suspended none now db b)
run-Backed sv column (revokes trust read sent caller release_id now) db b =
    after_check-Backed _ _ db b
      (λ x e. transition_release-Backed column sent release_id ReleaseState.revoked none now db b)

pub run_all-Backed :
    (sv : Semver) (column : Time → Time) (ops : List Operation) (db : Tables)
    → Backed db
    → Backed (run_all sv column ops db)
unfolding run_all
run_all-Backed sv column [] db b = b
run_all-Backed sv column (op ∷ ops) db b =
    run_all-Backed sv column ops (run sv column op db) (run-Backed sv column op db b)

-- What a read of a version says of its release.
pub record Matches (x : AgentVersion) (r : AgentRelease) : Type 0 where
  pub same_agent : r.agent_id ≡ x.card.agent_id
  pub same_version : r.agent_card_version ≡ x.card.version
  pub same_digest : r.card_digest ≡ x.card_digest
  pub version_published :
      ((r.state == ReleaseState.published) ≡ false) ⊎ (x.status ≡ PublicationStatus.published)

joined-Matches :
    (db : Tables) (row : VersionRow) (identity : Identity) (agent_id version : Text)
    (r : AgentRelease)
    → Backed db
    → find_row (is_version agent_id version) db.versions ≡ some row
    → (joined db row identity).release ≡ some r
    → Matches (joined db row identity) r
unfolding joined
joined-Matches db row identity agent_id version r b f h =
    let own =
      is_version-key agent_id version row
        (find_row-true (is_version agent_id version) db.versions f) in
    let key =
      is_release_of-key row.card.agent_id row.card.version r
        (find_row-true (is_release_of row.card.agent_id row.card.version) db.releases h) in
    let here : find_row (is_version row.card.agent_id row.card.version) db.versions ≡ some row =
      subst (λ a. find_row (is_version a row.card.version) db.versions ≡ some row) (sym own.0)
        (subst (λ v. find_row (is_version agent_id v) db.versions ≡ some row) (sym own.1) f) in
    let backs : backed_by (some row) (some r) ≡ true =
      subst (λ o. backed_by o (some r) ≡ true) here
        (subst
          (λ o.
            backed_by (find_row (is_version row.card.agent_id row.card.version) db.versions) o
            ≡ true)
          h (b.backed row.card.agent_id row.card.version)) in
    let facts = backed_facts row r backs in
    record {
      same_agent = key.0;
      same_version = key.1;
      same_digest = facts.0;
      version_published = facts.1;
    }
  where
    backed_facts :
        (row : VersionRow) (r : AgentRelease)
        → backed_by (some row) (some r) ≡ true
        → (r.card_digest ≡ row.card_digest)
          × (((r.state == ReleaseState.published) ≡ false)
              ⊎ (row.status ≡ PublicationStatus.published))
    backed_facts row r h =
        unfold backed_by in
        (
          sym ((text_beq_iff row.card_digest r.card_digest).0 (ground (arith, h))),
          elim (Bool-cases (r.state == ReleaseState.published)) [
            | inr e ↦ inl e
            | inl e ↦ inr (
                (publication_status_eq.decides row.status PublicationStatus.published).0
                  (ground (arith, h, e)))
          ],
        )

-- After any sequence of operations of owners on empty tables, one after another and some of which fail, a version that is
-- read with a release has a release for the identity and the digest of its card, and if that release
-- is published then so is the version.
pub run_all-Matches :
    (sv : Semver) (column : Time → Time) (ops : List Operation) (agent_id version : Text)
    (x : AgentVersion) (r : AgentRelease)
    → get true agent_id version (run_all sv column ops empty_tables) ≡ ok x
    → x.release ≡ some r
    → Matches x r
run_all-Matches sv column ops agent_id version x r g h =
    let db = run_all sv column ops empty_tables in
    let read = get-Selected db agent_id version x g in
    let is_joined = sym read.2.is_joined ∙ read.1 in
    subst (λ w. Matches w r) is_joined
      (joined-Matches db read.2.row read.2.identity agent_id version r
        (run_all-Backed sv column ops empty_tables empty_tables-Backed) read.2.is_row
        (ap (λ (w : AgentVersion). w.release) is_joined ∙ h))
