-- ===== src/Audit/Chain.antt =====
-- What Verify accepts (backend/internal/audit/audit.go).
use perspectivegraph.Base.{
  ℕ, ◌+◌, String, String_discrete, not, Option, none, some, List, [], ◌∷◌, ◌≡◌, ◌↔◌, inl, inr, refl,
  arith, ℤ, pos, is_yes, ◌>>=◌, if◌then◌else◌, length, Bool-cases, Option-cases,
}
use perspectivegraph.Audit.Log.{
  Record, zero_record, Codec, next, hash_record, decode_line, check_record, verify_from, verify,
}

module _ (cd : Codec) where
  abbrev pub read_record : String → Option Record
  read_record l = decode_line cd l >>= cd.unmarshal zero_record

  -- The records of a file, if each line that is not empty is one.
  abbrev pub records_of : List String → Option (List Record)
  records_of [] = some []
  records_of (l ∷ ls) =
      let rest = records_of ls in
      if not (cd.fits l)
      then none
      else if is_yes (String_discrete l "")
      then rest
      else read_record l >>= (λ r. rest >>= (λ rs. some (r ∷ rs)))

  -- Each record is linked to the one before it, numbered after it, and has its own hash.
  abbrev pub IsChain : String → ℤ → List Record → Type 0
  IsChain prev seq [] = Unit {0}
  IsChain prev seq (r ∷ rs) =
      (r.prev_hash ≡ prev)
      × (r.seq ≡ next seq)
      × (hash_record cd r ≡ r.hash)
      × IsChain r.hash r.seq rs

  check_record_lem :
      (prev : String) (seq : ℤ) (r : Record)
      → (check_record cd prev seq r ≡ none)
        ↔ ((r.prev_hash ≡ prev) × (r.seq ≡ next seq) × (hash_record cd r ≡ r.hash))
  unfolding check_record
  check_record_lem prev seq r = ground arith

  pub verify_from-IsChain :
      (ls : List String) (prev : String) (seq : ℤ) (n : ℕ)
      → (verify_from cd prev seq n ls).1 ≡ none
      → (rs : List Record) × (records_of ls ≡ some rs)
        × IsChain prev seq rs
        × ((verify_from cd prev seq n ls).0 ≡ n + length rs)
  unfolding verify_from
  verify_from-IsChain [] prev seq n h = ([], refl, tt, omega arith)
  verify_from-IsChain (l ∷ ls) prev seq n h = elim (Bool-cases (cd.fits l)) [
    | inr f ↦ absurd (ground arith)
    | inl f ↦ elim (String_discrete l "") [
      | yes e ↦
          let (rs, q, c, m) = verify_from-IsChain ls prev seq n (ground arith) in
          (rs, ground (arith, q), c, ground (arith, m))
      | no e ↦ elim (Option-cases (read_record l)) [
        | inl q ↦ absurd (ground arith)
        | inr (r, q) ↦ elim (Option-cases (check_record cd prev seq r)) [
          | inr (fault, k) ↦ absurd (ground arith)
          | inl k ↦
              let (rs, read, c, m) = verify_from-IsChain ls r.hash r.seq (n + 1) (ground arith) in
              let (a, b, d) = (check_record_lem prev seq r).0 k in
              (r ∷ rs, ground (arith, read), (a, b, d, c), ground (arith, m))
        ]
      ]
    ]
  ]

  pub IsChain-verified :
      (ls : List String) (prev : String) (seq : ℤ) (n : ℕ) (rs : List Record)
      → records_of ls ≡ some rs
      → IsChain prev seq rs
      → verify_from cd prev seq n ls ≡ (n + length rs, none)
  unfolding verify_from
  IsChain-verified [] prev seq n rs h c =
      elim rs
          as (λ rs.
            records_of [] ≡ some rs → verify_from cd prev seq n [] ≡ (n + length rs, none)) [
              | [] ↦ λ q. ground arith
              | r ∷ rest ↦ λ q. absurd (ground arith)
            ]
        h
  IsChain-verified (l ∷ ls) prev seq n rs h c = elim (Bool-cases (cd.fits l)) [
    | inr f ↦ absurd (ground arith)
    | inl f ↦ elim (String_discrete l "") [
      | yes e ↦ ground (arith, IsChain-verified ls prev seq n rs (ground arith) c)
      | no e ↦ elim (Option-cases (read_record l)) [
        | inl q ↦ absurd (ground arith)
        | inr (r, q) ↦ elim (Option-cases (records_of ls)) [
          | inl k ↦ absurd (ground arith)
          | inr (rest, k) ↦
              let same : rs ≡ r ∷ rest = ground arith in
              let (a, b, d, c') = rw same at c in
              let ok = (check_record_lem prev seq r).1 (a, b, d) in
              let tail = IsChain-verified ls r.hash r.seq (n + 1) rest k c' in
              rw same (ground (arith, ok, tail))
        ]
      ]
    ]
  ]

  -- Verify finds no fault exactly when every line that is not empty is a record and the records form
  -- a chain from the empty hash and number 0, and then it counts them.
  pub verify_iff :
      (lines : List String) (n : ℕ)
      → (verify cd lines ≡ (n, none)) ↔ (
          (rs : List Record) × (records_of lines ≡ some rs)
          × IsChain "" (pos 0) rs
          × (n ≡ length rs))
  unfolding verify
  verify_iff lines n = (
    λ h.
        let (rs, read, c, m) = verify_from-IsChain lines "" (pos 0) 0 (ground arith) in
        (rs, read, c, ground (arith, m)),
    λ (rs, read, c, m). ground (arith, IsChain-verified lines "" (pos 0) 0 rs read c),
  )
