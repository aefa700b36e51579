-- ===== src/Audit/Writing.antt =====
-- A log that is written verifies, and goes on where it stopped (backend/internal/audit/audit.go).
use perspectivegraph.Base.{
  String, Bool, true, false, ◌&&◌, none, some, List, [], ◌∷◌, ◌++◌, ◌≡◌, ◌≢◌, ◌↔◌, inl, inr, refl,
  sym, subst, arith, Time, ℤ, pos, ◌>>=◌, length, Bool-cases, Option-cases,
}
use perspectivegraph.Audit.Storable.{Members}
use perspectivegraph.Audit.Log.{
  Record, zero_record, Codec, next, Log, Writing, written, cut_short, hash_record, encode_line,
  decode_line, new_record, append, record_entry, tail_from, open_log, verify,
}
use perspectivegraph.Audit.Chain.{
  read_record, records_of, IsChain, IsChain-verified, verify_from-IsChain,
}

module _ (cd : Codec) where
  -- The line is what is written for the record.
  pub record IsWritten (out : String) (rec : Record) : Type 0 where
    pub line : String
    pub marshalled : cd.marshal rec ≡ some line
    pub encoded : encode_line cd line ≡ some out

  -- A written line is not empty. Read back it gives a record with the same number, link and hash; read
  -- into a record that holds another, it gives its number and hash. The other fields may come back
  -- as other values: a number as a `float64`, a text with a replacement for what is not UTF-8.
  pub record CodecLaws : Type 0 where
    pub not_empty : (out : String) (rec : Record) → IsWritten out rec → out ≢ ""
    pub read_back :
        (out : String) (rec : Record)
        → IsWritten out rec
        → (r : Record) × (read_record cd out ≡ some r)
          × (r.seq ≡ rec.seq)
          × (r.prev_hash ≡ rec.prev_hash)
          × (r.hash ≡ rec.hash)
    pub read_into :
        (last : Record) (out : String) (rec : Record)
        → IsWritten out rec
        → (r : Record) × ((decode_line cd out >>= cd.unmarshal last) ≡ some r)
          × (r.seq ≡ rec.seq)
          × (r.hash ≡ rec.hash)

  pub data WrittenAs : List String → List Record → Type 0 where
    no_line : WrittenAs [] []
    line :
        {out : String} {rec : Record} {ls : List String} {rs : List Record}
        → IsWritten out rec
        → WrittenAs ls rs
        → WrittenAs (out ∷ ls) (rec ∷ rs)

  -- Each line, where it is read back, gives a record that hashes to what the written one hashed to.
  abbrev pub HashesKept : List String → List Record → Type 0
  HashesKept [] rs = Unit {0}
  HashesKept (out ∷ ls) [] = Unit {0}
  HashesKept (out ∷ ls) (rec ∷ rs) =
      ((r : Record) → read_record cd out ≡ some r → hash_record cd r ≡ hash_record cd rec)
      × HashesKept ls rs

  -- The scanner's buffer holds every line.
  abbrev pub all_fit : List String → Bool
  all_fit [] = true
  all_fit (l ∷ ls) = cd.fits l && all_fit ls

  -- The hash and number that a chain from a hash and a number ends with.
  abbrev pub EndsWith : String → ℤ → List Record → String → ℤ → Type 0
  EndsWith prev seq [] h s = (prev ≡ h) × (seq ≡ s)
  EndsWith prev seq (r ∷ rs) h s = EndsWith r.hash r.seq rs h s

  -- The file holds a chain of records, as they were written, that ends where the log stands.
  pub record IsSound (l : Log) : Type 0 where
    pub records : List Record
    pub lines : WrittenAs l.lines records
    pub chain : IsChain cd "" (pos 0) records
    pub end : EndsWith "" (pos 0) records l.prev_hash l.seq

  WrittenAs-append :
      {ls : List String} {rs : List Record} (out : String) (rec : Record)
      → WrittenAs ls rs
      → IsWritten out rec
      → WrittenAs (ls ++ out ∷ []) (rs ++ rec ∷ [])
  WrittenAs-append out rec WrittenAs.no_line w = WrittenAs.line w WrittenAs.no_line
  WrittenAs-append out rec (WrittenAs.line v rest) w =
      WrittenAs.line v (WrittenAs-append out rec rest w)

  IsChain-append :
      (prev : String) (seq : ℤ) (rs : List Record) (h : String) (s : ℤ) (rec : Record)
      → IsChain cd prev seq rs
      → EndsWith prev seq rs h s
      → rec.prev_hash ≡ h
      → rec.seq ≡ next s
      → hash_record cd rec ≡ rec.hash
      → IsChain cd prev seq (rs ++ rec ∷ []) × EndsWith prev seq (rs ++ rec ∷ []) rec.hash rec.seq
  IsChain-append prev seq [] h s rec c (e, f) link number own =
      ((ground arith, ground arith, own, tt), (refl, refl))
  IsChain-append prev seq (r ∷ rs) h s rec (a, b, d, c) e link number own =
      let (c', e') = IsChain-append r.hash r.seq rs h s rec c e link number own in
      ((a, b, d, c'), e')

  all_fit-append :
      (ls : List String) (out : String) → all_fit (ls ++ out ∷ []) ≡ (all_fit ls && cd.fits out)
  all_fit-append [] out = ground arith
  all_fit-append (l ∷ ls) out = ground (arith, all_fit-append ls out)

  new_record_lem :
      (l : Log) (id : String) (now : Time) (action subject role tenant : String) (fields : Members)
      → let rec = new_record cd l id now action subject role tenant fields in
        (rec.prev_hash ≡ l.prev_hash) × (rec.seq ≡ next l.seq) × (hash_record cd rec ≡ rec.hash)
  unfolding new_record hash_record
  new_record_lem l id now action subject role tenant fields = (refl, refl, refl)

  -- A log that has been written to and reopened, any number of times, from an empty file on. A log
  -- whose last write was cut short is not reopened.
  pub data Reach : Log → Type 0 where
    empty : Reach (record { seq = pos 0; prev_hash = ""; lines = []; broken = false })
    recorded :
        {l : Log} (w : Writing) (id : String) (now : Time) (action subject role tenant : String)
        (fields : Members)
        → Reach l
        → Reach (record_entry cd l w id now action subject role tenant fields)
    reopened : {l k : Log} → Reach l → l.broken ≡ false → open_log cd l.lines ≡ some k → Reach k

  module _ (laws : CodecLaws) where
    -- The scan of the tail: it reads through exactly when the lines fit, to where the chain ends.
    tail_end :
        {ls : List String} {rs : List Record} (last : Record) (prev : String) (seq : ℤ) (h : String)
        (s : ℤ)
        → WrittenAs ls rs
        → EndsWith prev seq rs h s
        → last.hash ≡ prev
        → last.seq ≡ seq
        → all_fit ls ≡ true
        → (r : Record) × (tail_from cd last ls ≡ some r) × (r.hash ≡ h) × (r.seq ≡ s)
    unfolding tail_from
    tail_end last prev seq h s WrittenAs.no_line (e, f) p q fit =
        (last, refl, ground arith, ground arith)
    tail_end last prev seq h s (WrittenAs.line {out} {rec} {ls} {rs} w rest) e p q fit =
        let (r, read, number, own) = laws.read_into last out rec w in
        let ne = laws.not_empty out rec w in
        let (t, found, a, b) = tail_end r rec.hash rec.seq h s rest e own number (ground arith) in
        (t, ground (arith, found, ne, read), a, b)

    tail_fits :
        {ls : List String} {rs : List Record} (last : Record) (r : Record)
        → WrittenAs ls rs
        → tail_from cd last ls ≡ some r
        → all_fit ls ≡ true
    unfolding tail_from
    tail_fits last r WrittenAs.no_line h = refl
    tail_fits last r (WrittenAs.line {out} {rec} {ls} w rest) h =
        let (t, read, number, own) = laws.read_into last out rec w in
        let ne = laws.not_empty out rec w in
        elim (Bool-cases (cd.fits out)) [
          | inr f ↦ absurd (ground arith)
          | inl f ↦
              let found : tail_from cd t ls ≡ some r = ground (arith, ne, read) in
              ground (arith, tail_fits t r rest found)
        ]

    append-IsSound :
        (l : Log) (rec : Record) (out : String)
        → IsSound l
        → IsWritten out rec
        → rec.prev_hash ≡ l.prev_hash
        → rec.seq ≡ next l.seq
        → hash_record cd rec ≡ rec.hash
        → l.broken ≡ false
        → IsSound (append l rec written out)
    unfolding append
    append-IsSound l rec out h w link number own fine =
        let (c, e) =
          IsChain-append "" (pos 0) h.records l.prev_hash l.seq rec h.chain h.end link number own in
        rw (fine, append)
          (record {
            records = h.records ++ rec ∷ [];
            lines = WrittenAs-append out rec h.lines w;
            chain = c;
            end = e;
          })

    append_any-IsSound :
        (l : Log) (w : Writing) (rec : Record) (out : String)
        → (l.broken ≡ false → IsSound l)
        → IsWritten out rec
        → rec.prev_hash ≡ l.prev_hash
        → rec.seq ≡ next l.seq
        → hash_record cd rec ≡ rec.hash
        → (append l rec w out).broken ≡ false
        → IsSound (append l rec w out)
    unfolding append
    append_any-IsSound l written rec out h i link number own fine = elim (Bool-cases l.broken) [
      | inl b ↦ absurd (ground arith)
      | inr b ↦ append-IsSound l rec out (h b) i link number own b
    ]
    append_any-IsSound l (cut_short part) rec out h i link number own fine = absurd (ground arith)

    record_entry-IsSound :
        (l : Log) (w : Writing) (id : String) (now : Time) (action subject role tenant : String)
        (fields : Members)
        → (l.broken ≡ false → IsSound l)
        → (record_entry cd l w id now action subject role tenant fields).broken ≡ false
        → IsSound (record_entry cd l w id now action subject role tenant fields)
    unfolding record_entry
    record_entry-IsSound l w id now action subject role tenant fields h fine =
        let rec = new_record cd l id now action subject role tenant fields in
        let (link, number, own) = new_record_lem l id now action subject role tenant fields in
        elim (Option-cases (cd.marshal rec)) [
          | inl q ↦ rw (q, record_entry) (h (rw (q, record_entry) at fine))
          | inr (text, q) ↦ elim (Option-cases (encode_line cd text)) [
            | inl r ↦ rw (q, record_entry, r) (h (rw (q, record_entry, r) at fine))
            | inr (out, r) ↦
                let fine' = rw (q, record_entry, r) at fine in
                rw (q, record_entry, r)
                  (append_any-IsSound l w rec out h
                    (record { line = text; marshalled = q; encoded = r }) link number own fine')
          ]
        ]

    Reach-IsSound : {l : Log} → Reach l → l.broken ≡ false → IsSound l
    unfolding open_log
    Reach-IsSound Reach.empty fine = record {
      records = [];
      lines = WrittenAs.no_line;
      chain = tt;
      end = (refl, refl);
    }
    Reach-IsSound (Reach.recorded {l} w id now action subject role tenant fields r) fine =
        record_entry-IsSound l w id now action subject role tenant fields (Reach-IsSound r) fine
    Reach-IsSound (Reach.reopened {l} {k} r whole q) fine =
        let h = Reach-IsSound r whole in
        elim (Option-cases (tail_from cd zero_record l.lines)) [
          | inl e ↦ absurd (ground arith)
          | inr (t, e) ↦
              let (u, found, a, b) =
                tail_end zero_record "" (pos 0) l.prev_hash l.seq h.lines h.end refl refl
                  (tail_fits zero_record t h.lines e) in
              let same : k ≡ record {
                seq = l.seq;
                prev_hash = l.prev_hash;
                lines = l.lines;
                broken = false;
              } =
                ground arith in
              rw same
                (record { records = h.records; lines = h.lines; chain = h.chain; end = h.end })
        ]

    -- The records that are read back from what was written chain as the written ones do, but for their
    -- hashes.
    read_all :
        {ls : List String} {rs : List Record} (prev : String) (seq : ℤ)
        → WrittenAs ls rs
        → IsChain cd prev seq rs
        → all_fit ls ≡ true
        → (qs : List Record) × (records_of cd ls ≡ some qs)
          × (length qs ≡ length ls)
          × (HashesKept ls rs → IsChain cd prev seq qs)
          × (IsChain cd prev seq qs → HashesKept ls rs)
    read_all prev seq WrittenAs.no_line c fit = ([], refl, refl, λ k. tt, λ k. tt)
    read_all prev seq (WrittenAs.line {out} {rec} {ls} {rs} w rest) (a, b, d, c) fit =
        let (r, read, number, link, own) = laws.read_back out rec w in
        let ne = laws.not_empty out rec w in
        let (qs, all, len, on, back) = read_all rec.hash rec.seq rest c (ground arith) in
        (
          r ∷ qs,
          ground (arith, all, ne, read),
          ground (arith, len),
          λ (same, kept).
              let rehashed = same r read in
              (
                ground arith,
                ground arith,
                ground (arith, rehashed),
                subst (λ h. IsChain cd h r.seq qs) (sym own)
                    (subst (λ n. IsChain cd rec.hash n qs) (sym number) (on kept)),
              ),
          λ (_, _, hashed, chain). (
            λ q found.
                let one : r ≡ q = ground (arith, read, found) in
                subst (λ x. hash_record cd x ≡ hash_record cd rec) one (ground (arith, hashed)),
            back (
                subst (λ h. IsChain cd h rec.seq qs) own
                  (subst (λ n. IsChain cd r.hash n qs) number chain)),
          ),
        )

    -- However a log was written to and reopened, if no write was cut short and each line fits the
    -- scanner's buffer, then opening it again gives the state that the log is in, and Verify counts its
    -- lines and finds no fault exactly where each record hashes, once it was read back, to the hash
    -- that it had when it was written.
    pub written_verifies :
        {l : Log}
        → Reach l
        → l.broken ≡ false
        → all_fit l.lines ≡ true
        → (rs : List Record) × WrittenAs l.lines rs
          × ((verify cd l.lines ≡ (length l.lines, none)) ↔ HashesKept l.lines rs)
          × (open_log cd l.lines ≡ some l)
    unfolding verify open_log
    written_verifies {l} r fine fit =
        let h = Reach-IsSound r fine in
        let (qs, read, len, on, back) = read_all "" (pos 0) h.lines h.chain fit in
        let (t, found, a, b) =
          tail_end zero_record "" (pos 0) l.prev_hash l.seq h.lines h.end refl refl fit in
        (
          h.records,
          h.lines,
          (
            λ v.
                let (rs, again, chain, n) =
                  verify_from-IsChain cd l.lines "" (pos 0) 0 (ground arith) in
                let same : rs ≡ qs = ground (arith, read, again) in
                back (subst (IsChain cd "" (pos 0)) same chain),
            λ kept. ground (arith, IsChain-verified cd l.lines "" (pos 0) 0 qs read (on kept), len),
          ),
          ground (arith, found),
        )
