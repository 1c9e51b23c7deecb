-- ===== src/Cdn/Detector/Prefix.antt =====
-- What detectByReadFile of cache_detector.go keeps of the records, and what it leaves in the digest.
use dragonfly.Prelude.Int.{ℤ}
use dragonfly.Prelude.{
  is_some, Option, none, ◌≢◌, ◌⊎◌, ==_ne, Bool-cases, subst, inl, inr, append_assoc, arith, sym, ap,
  ◌∙◌, append-nil, ◌==◌, if◌then◌else◌, take, drop, ℕ, zero, suc, ◌+◌, ◌%◌, ◌^◌, ◌≡◌, refl, true,
  false, List, [], ◌∷◌, ◌++◌,
}
use native.Mathlib.Nat.{zero-add, add-zero}
use dragonfly.Cdn.Records.{PieceMetaRecord}
use dragonfly.Cdn.Detector.{CheckError, same_text, length, check_piece_content, read_pieces}

shift : (a b : ℕ) → suc (a + b) ≡ suc a + b
shift a b = omega arith

pub take-empty : (n : ℕ) → take {A = ℕ} n [] ≡ []
take-empty zero = refl
take-empty (suc n) = refl

pub drop-empty : (n : ℕ) → drop {A = ℕ} n [] ≡ []
drop-empty zero = refl
drop-empty (suc n) = refl

take-add : (a b : ℕ) (l : List ℕ) → take a l ++ take b (drop a l) ≡ take (a + b) l
take-add zero b l = ap (λ n. take n l) (sym (zero-add b))
take-add (suc a) b [] = take-empty b ∙ sym (take-empty (suc a + b))
take-add (suc a) b (x ∷ l) = ap (λ t. x ∷ t) (take-add a b l) ∙ ap (λ n. take n (x ∷ l)) (shift a b)

drop-add : (a b : ℕ) (l : List ℕ) → drop b (drop a l) ≡ drop (a + b) l
drop-add zero b l = ap (λ n. drop n l) (sym (zero-add b))
drop-add (suc a) b [] = drop-empty b ∙ sym (drop-empty (suc a + b))
drop-add (suc a) b (x ∷ l) = drop-add a b l ∙ ap (λ n. drop n (x ∷ l)) (shift a b)

-- The bytes of the pieces.
abbrev pub total : List PieceMetaRecord → ℕ
total [] = 0
total (r ∷ records) = r.piece_len + total records

same_text-true : (a b : List ℕ) → same_text a b ≡ true → a ≡ b
unfolding same_text
same_text-true [] [] e = refl
same_text-true [] (d ∷ b) e = absurd (ground arith)
same_text-true (c ∷ a) [] e = absurd (ground arith)
same_text-true (c ∷ a) (d ∷ b) e = ground (arith, same_text-true a b)

same_text_same : (a b : List ℕ) → a ≡ b → same_text a b ≡ true
unfolding same_text
same_text_same a b e = subst (λ x. same_text a x ≡ true) e (own a)
  where
    own : (x : List ℕ) → same_text x x ≡ true
    own [] = refl
    own (c ∷ x) = ground (arith, own x)

module _ (md5 : List ℕ → List ℕ) (sha256 : List (List ℕ) → ℕ)
    (wrap : Option CheckError → Option CheckError) where
  -- The record has the number of its place, and the file has its content next, or too few bytes.
  pub record IsGood (file : List ℕ) (index : ℕ) (r : PieceMetaRecord) : Type 0 where
    pub numbered : index % 2 ^ 32 ≡ r.piece_num
    pub content :
        (length (take r.piece_len file) ≢ r.piece_len) ⊎ (md5 (take r.piece_len file) ≡ r.md5)

  abbrev pub AllGood : List ℕ → ℕ → List PieceMetaRecord → Type 0
  AllGood file index [] = Unit
  AllGood file index (r ∷ records) =
      IsGood file index r × AllGood (drop r.piece_len file) (index + 1) records

  abbrev pub Stops : List ℕ → ℕ → List PieceMetaRecord → Type 0
  Stops file index [] = Unit
  Stops file index (r ∷ records) = IsGood file index r → ⊥

  passed-IsGood :
      (file : List ℕ) (index : ℕ) (r : PieceMetaRecord)
      → (index % 2 ^ 32 == r.piece_num) ≡ true
      → is_some (check_piece_content md5 sha256 wrap file r).1 ≡ false
      → IsGood file index r
  unfolding check_piece_content
  passed-IsGood file index r e k = record {
    numbered = ground arith;
    content = elim (Bool-cases (length (take r.piece_len file) == r.piece_len)) [
      | inl whole ↦ inr (same_text-true (md5 (take r.piece_len file)) r.md5 (ground arith))
      | inr short ↦ inl (ground arith)
    ];
  }

  misplaced-IsGood :
      (file : List ℕ) (index : ℕ) (r : PieceMetaRecord)
      → (index % 2 ^ 32 == r.piece_num) ≡ false
      → IsGood file index r
      → ⊥
  misplaced-IsGood file index r k h = absurd (ground (arith, h.numbered))

  -- The check of a record that is not broken reports nothing.
  pub check_piece_content-IsGood :
      (file : List ℕ) (index : ℕ) (r : PieceMetaRecord)
      → wrap none ≡ none
      → IsGood file index r
      → is_some (check_piece_content md5 sha256 wrap file r).1 ≡ false
  unfolding check_piece_content
  check_piece_content-IsGood file index r nil h = elim h.content [
    | inl short ↦ rw (==_ne (length (take r.piece_len file)) r.piece_len short, nil) refl
    | inr same ↦ elim (Bool-cases (length (take r.piece_len file) == r.piece_len)) [
      | inl whole ↦ rw (whole, same_text_same (md5 (take r.piece_len file)) r.md5 same) refl
      | inr short ↦ rw (short, nil) refl
    ]
  ]

  broken-IsGood :
      (file : List ℕ) (index : ℕ) (r : PieceMetaRecord)
      → wrap none ≡ none
      → is_some (check_piece_content md5 sha256 wrap file r).1 ≡ true
      → IsGood file index r
      → ⊥
  broken-IsGood file index r nil k h =
      let passed = check_piece_content-IsGood file index r nil h in absurd cc

  -- The bytes of the first record that is not kept, which are read if it has the number of its place.
  abbrev pub read_on : List ℕ → ℕ → List PieceMetaRecord → List ℕ
  read_on file index [] = []
  read_on file index (r ∷ records) =
      if index % 2 ^ 32 == r.piece_num then take r.piece_len file else []

  pub record Detected (file : List ℕ) (index : ℕ) (digest : List ℕ)
      (records kept : List PieceMetaRecord) (digest' : List ℕ) : Type 0 where
    pub rest : List PieceMetaRecord
    pub parts : records ≡ kept ++ rest
    pub good : AllGood file index kept
    pub stops : Stops (drop (total kept) file) (index + length kept) rest
    pub hashed :
        digest'
        ≡ digest
          ++ (take (total kept) file ++ read_on (drop (total kept) file) (index + length kept) rest)

  Detected-cons :
      (file : List ℕ) (index : ℕ) (digest : List ℕ) (r : PieceMetaRecord)
      (records kept : List PieceMetaRecord) (digest' : List ℕ)
      → IsGood file index r
      → Detected
          (drop r.piece_len file)
          (index + 1)
          (digest ++ take r.piece_len file)
          records
          kept
          digest'
      → Detected file index digest (r ∷ records) (r ∷ kept) digest'
  Detected-cons file index digest r records kept digest' e h =
      let a = r.piece_len in
      let t = total kept in
      let place : index + 1 + length kept ≡ index + suc (length kept) = omega arith in
      record {
        rest = h.rest;
        parts = ap (λ l. r ∷ l) h.parts;
        good = (e, h.good);
        stops =
            subst (λ i. Stops (drop (a + t) file) i h.rest) place
              (subst (λ f. Stops f (index + 1 + length kept) h.rest) (drop-add a t file) h.stops);
        hashed =
            h.hashed
            ∙ append_assoc digest (take a file) _
            ∙ ap (λ l. digest ++ l)
                (sym (append_assoc (take a file) (take t (drop a file)) _)
                  ∙ rw (take-add a t file, drop-add a t file, place) refl);
      }

  Detected-nil :
      (file : List ℕ) (index : ℕ) (digest : List ℕ) (records : List PieceMetaRecord)
      (digest' : List ℕ)
      → Stops file index records
      → digest' ≡ digest ++ read_on file index records
      → Detected file index digest records [] digest'
  Detected-nil file index digest records digest' h e = record {
    rest = records;
    parts = refl;
    good = tt;
    stops = subst (λ i. Stops file i records) (sym (add-zero index)) h;
    hashed = e ∙ ap (λ i. digest ++ read_on file i records) (sym (add-zero index));
  }

  -- Let errors.Wrap of nil be nil. The loop of detectByReadFile keeps a front of the sorted
  -- records: each of these has the number of its place, and its md5 over the bytes that follow
  -- those of the records before it unless the file has fewer bytes left than its length; the next
  -- record has another number, or all its bytes and another md5. The digest is fed the bytes of
  -- the records that are kept, and those of the next one too if it has the right number.
  pub read_pieces-Detected :
      wrap none ≡ none
      → (file : List ℕ) (index : ℕ) (break_point : ℤ) (records : List PieceMetaRecord)
        (digest : List ℕ)
      → Detected file index digest records
          (read_pieces md5 sha256 wrap file index break_point records digest).0
          (read_pieces md5 sha256 wrap file index break_point records digest).2
  unfolding read_pieces check_piece_content
  read_pieces-Detected nil file index break_point [] digest =
      Detected-nil file index digest [] digest tt (sym (append-nil digest))
  read_pieces-Detected nil file index break_point (r ∷ records) digest =
      elim (Bool-cases (index % 2 ^ 32 == r.piece_num)) [
        | inl numbered ↦
            elim (Bool-cases (is_some (check_piece_content md5 sha256 wrap file r).1)) [
              | inr fine ↦
                  rw (read_pieces, numbered, fine)
                    (Detected-cons file index digest r records _ _
                      (passed-IsGood file index r numbered fine)
                      (read_pieces-Detected nil (drop r.piece_len file) (index + 1) _ records
                        (digest ++ take r.piece_len file)))
              | inl broken ↦
                  rw (read_pieces, numbered, broken)
                    (Detected-nil file index digest (r ∷ records) _
                      (broken-IsGood file index r nil broken) (rw numbered refl))
            ]
        | inr other ↦
            rw (read_pieces, other)
              (Detected-nil file index digest (r ∷ records) _
                (λ h. misplaced-IsGood file index r other h) (rw other (sym (append-nil digest))))
      ]
