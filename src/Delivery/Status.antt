-- ===== src/Delivery/Status.antt =====
-- How much of a batch has been applied: BatchStatus (backend/internal/broker/batch.go).
use perspectivegraph.Base.Maps.{Map}
use perspectivegraph.Base.{
  ℕ, String, Bool, true, false, not, ◌||◌, ◌&&◌, none, some, [], ◌∷◌, Time, ltb, leb, if◌then◌else◌,
  length,
}
use perspectivegraph.Delivery.{Replica, KeyValue, valid_id}

pub record BatchStatus : Type 0 where
  pub id : String
  pub tenant : String
  pub messages : ℕ
  pub applied : ℕ
  pub applied_at : Time

-- Complete
abbrev pub complete : BatchStatus → Bool
complete st = ltb 0 st.messages && leb st.messages st.applied

-- The loop over the keys: the last time that could be read.
abbrev pub last_applied : Replica → Time → Map String Time → Time
last_applied r last [] = last
last_applied r last ((seq, at) ∷ m) =
    last_applied r (if r.can_read seq && ltb last at then at else last) m

module _ {B : Type 0} (kv : KeyValue B) where
  -- BatchStatus, with whether it gave an error
  unfoldable pub batch_status : Replica → B → String → BatchStatus × Bool
  unfolding valid_id
  batch_status r b id =
      let zero_status : BatchStatus = record {
        id = id;
        tenant = "";
        messages = 0;
        applied = 0;
        applied_at = 0;
      } in
      if not r.has_bucket || not (valid_id id)
      then (zero_status, false)
      else if not r.can_read_total
      then (zero_status, true)
      else elim (kv.total b id) as (λ _. BatchStatus × Bool) [
        | none ↦ (zero_status, false)
        | some (n, tenant) ↦
            let known : BatchStatus = record zero_status { messages = n; tenant = tenant } in
            let marks = kv.marks b id in
            let counted : BatchStatus = record known { applied = length marks } in
            if not r.can_count then (known, true) else (
              record counted {
                applied_at = if complete counted then last_applied r 0 marks else 0;
              },
              false,
            )
      ]
