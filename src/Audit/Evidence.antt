-- ===== src/Audit/Evidence.antt =====
-- A log's last hash fixes all of it (backend/internal/audit/audit.go).
use mathlib.Core.List.{reverse, reverse_aux}
use perspectivegraph.Base.{
  ℕ, String, none, some, List, [], ◌∷◌, ◌≡◌, ◌≢◌, ◌⊎◌, inl, inr, refl, arith, map, ℤ, pos,
  String_discrete,
}
use perspectivegraph.Audit.Log.{Record, Codec, hashed_text, hash_record, verify}
use perspectivegraph.Audit.Chain.{records_of, IsChain, verify_iff}

module _ (cd : Codec) where
  -- A digest is not the empty text, and the JSON text of a record tells its link.
  pub record DigestLaws : Type 0 where
    pub not_empty : (t : String) → cd.digest t ≢ ""
    pub link : (r q : Record) → hashed_text cd r ≡ hashed_text cd q → r.prev_hash ≡ q.prev_hash

  -- Two texts with one digest.
  abbrev pub Collision : Type 0
  Collision = (s : String) × (t : String) × (s ≢ t) × (cd.digest s ≡ cd.digest t)

  -- The last hash of a chain that starts from a hash.
  abbrev pub last_hash : String → List Record → String
  last_hash prev [] = prev
  last_hash prev (r ∷ rs) = last_hash r.hash rs

  -- A chain from its last record back to the empty hash.
  abbrev Linked : List Record → String → Type 0
  Linked [] h = h ≡ ""
  Linked (r ∷ rs) h = (r.hash ≡ h) × (hash_record cd r ≡ r.hash) × Linked rs r.prev_hash

  chain-Linked :
      (rs acc : List Record) (prev : String) (seq : ℤ)
      → IsChain cd prev seq rs
      → Linked acc prev
      → Linked (reverse_aux rs acc) (last_hash prev rs)
  chain-Linked [] acc prev seq c h = h
  chain-Linked (r ∷ rs) acc prev seq (a, b, d, c) h =
      chain-Linked rs (r ∷ acc) r.hash r.seq c (refl, d, rw a h)

  module _ (laws : DigestLaws) where
    same_history :
        (rs qs : List Record) (h : String)
        → Linked rs h
        → Linked qs h
        → (map (hashed_text cd) rs ≡ map (hashed_text cd) qs) ⊎ Collision
    unfolding hash_record
    same_history [] [] h a b = inl refl
    same_history [] (q ∷ qs) h a (e, own, rest) =
        absurd (ground (arith, laws.not_empty (hashed_text cd q)))
    same_history (r ∷ rs) [] h (e, own, rest) b =
        absurd (ground (arith, laws.not_empty (hashed_text cd r)))
    same_history (r ∷ rs) (q ∷ qs) h (e, own, rest) (e', own', rest') =
        let digests : cd.digest (hashed_text cd r) ≡ cd.digest (hashed_text cd q) = ground arith in
        elim (String_discrete (hashed_text cd r) (hashed_text cd q)) [
          | no ne ↦ inr (hashed_text cd r, hashed_text cd q, ne, digests)
          | yes p ↦ elim (same_history rs qs r.prev_hash rest (rw (laws.link r q p) rest')) [
            | inr col ↦ inr col
            | inl same ↦ inl (cc (p, same))
          ]
        ]

    -- Of two logs in which Verify finds no fault and whose last records have the same hash, the
    -- records have the same hashed texts, one by one, or two different texts with one digest are found.
    pub tamper_evident :
        (lines lines' : List String) (n m : ℕ) (rs qs : List Record)
        → verify cd lines ≡ (n, none)
        → verify cd lines' ≡ (m, none)
        → records_of cd lines ≡ some rs
        → records_of cd lines' ≡ some qs
        → last_hash "" rs ≡ last_hash "" qs
        → (map (hashed_text cd) (reverse rs) ≡ map (hashed_text cd) (reverse qs)) ⊎ Collision
    tamper_evident lines lines' n m rs qs v v' read read' same =
        let (rs', a, c, _) = (verify_iff cd lines n).0 v in
        let (qs', b, c', _) = (verify_iff cd lines' m).0 v' in
        let e : rs' ≡ rs = ground arith in
        let e' : qs' ≡ qs = ground arith in
        same_history (reverse rs) (reverse qs) (last_hash "" rs)
          (chain-Linked rs [] "" (pos 0) (rw e at c) refl)
          (rw same (chain-Linked qs [] "" (pos 0) (rw e' at c') refl))
