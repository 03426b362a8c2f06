-- ===== src/Credentials/Laws.antt =====
-- How old the assertion is, and that the certificates are split to the end.
use gpu_provisioner.Base.{
  ℕ, zero, suc, ◌+◌, ◌≤◌, ◌<◌, ◌≡◌, ◌∙◌, refl, sym, ap, Bool, Bool-cases, inl, inr, true, false,
  Option, none, some, List, [], ◌∷◌, ◌++◌, append_assoc, append-nil, ltb, length, arith,
  if◌then◌else◌,
}
use gpu_provisioner.Base.Text.{Bytes, codes, same, same_iff}
use gpu_provisioner.Base.Result.{Result, ok, err, panic, out_of_fuel}
use gpu_provisioner.Credentials.{
  System, Confidential, ClientAssertionCredential, Heap, Pem, add_block, split_loop,
  split_pem_block, keep_assertion, read_jwt_from_fs,
}

-- `pem.Decode` returns a rest that is shorter than its input, where it finds a block.
abbrev pub IsPem : Pem → Type 0
IsPem P =
    (s : Bytes) (block : P.Block) (rest : Bytes)
    → P.decode s ≡ (some block, rest)
    → length rest < length s

abbrev pub certificate : Bytes
certificate = codes "CERTIFICATE"

abbrev pub private_key : Bytes
private_key = codes "PRIVATE KEY"

other_type : (t : Bytes) → same t certificate ≡ true → same t private_key ≡ false
unfolding same codes
other_type t e = rw ((same_iff t certificate).0 e) refl

nothing : (cs ks : Bytes) → ◌≡◌ {A = Result (Bytes × Bytes)} (ok (cs, ks)) (ok (cs ++ [], ks ++ []))
nothing cs ks = rw (append-nil cs, append-nil ks) refl

module _ (P : Pem) where
  -- The blocks that are read in turn, from what `pem.Decode` returned first.
  pub data IsRead : Option P.Block × Bytes → List P.Block → Type 0 where
    read_none : {rest : Bytes} → IsRead (none, rest) []
    read_one :
        {block : P.Block} {rest : Bytes} {blocks : List P.Block}
        → IsRead (P.decode rest) blocks
        → IsRead (some block, rest) (block ∷ blocks)

  -- The texts of the blocks of one type, joined.
  abbrev pub texts : Bytes → List P.Block → Bytes
  texts t [] = []
  texts t (block ∷ blocks) =
      let rest = texts t blocks in
      if same (P.block_type block) t then P.encode block ++ rest else rest

  abbrev with_texts : Bytes × Bytes → List P.Block → Bytes × Bytes
  with_texts (certs, keys) blocks =
      (certs ++ texts certificate blocks, keys ++ texts private_key blocks)

  with_texts-add_block :
      (block : P.Block) (blocks : List P.Block) (found : Bytes × Bytes)
      → with_texts (add_block P block found) blocks ≡ with_texts found (block ∷ blocks)
  with_texts-add_block block blocks (certs, keys) =
      elim (Bool-cases (same (P.block_type block) certificate)) [
        | inl is_cert ↦
            rw (is_cert, other_type (P.block_type block) is_cert)
              (ap (λ (cs : Bytes). (cs, keys ++ texts private_key blocks))
                (append_assoc certs (P.encode block) (texts certificate blocks)))
        | inr no_cert ↦ elim (Bool-cases (same (P.block_type block) private_key)) [
          | inl is_key ↦
              rw (no_cert, is_key)
                (ap (λ (ks : Bytes). (certs ++ texts certificate blocks, ks))
                  (append_assoc keys (P.encode block) (texts private_key blocks)))
          | inr no_key ↦ rw (no_cert, no_key) refl
        ]
      ]

  split_loop_lem :
      (laws : IsPem P) (fuel : ℕ) (x : Option P.Block × Bytes) (found : Bytes × Bytes)
      → ((block : P.Block) (rest : Bytes) → x ≡ (some block, rest) → length rest < fuel)
      → (blocks : List P.Block) × IsRead x blocks
        × (split_loop P fuel x found ≡ ok (with_texts found blocks))
  unfolding split_loop
  split_loop_lem laws zero (none, rest) (cs, ks) h = ([], read_none, nothing cs ks)
  split_loop_lem laws (suc fuel) (none, rest) (cs, ks) h = ([], read_none, nothing cs ks)
  split_loop_lem laws zero (some block, rest) found h = absurd (omega (arith, h block rest refl))
  split_loop_lem laws (suc fuel) (some block, rest) found h =
      let (blocks, read, e) =
        split_loop_lem laws fuel (P.decode rest) (add_block P block found)
          (λ next left e. omega (arith, h block rest refl, laws rest next left e)) in
      (block ∷ blocks, read_one read, e ∙ ap ok (with_texts-add_block block blocks found))

  -- With `pem.Decode` as documented the loop ends, and its results are the texts of the certificates and
  -- those of the private keys, in the order of the blocks.
  pub split_pem_block_lem :
      (laws : IsPem P) (s : Bytes)
      → (blocks : List P.Block) × IsRead (P.decode s) blocks
        × (split_pem_block P s ≡ ok (texts certificate blocks, texts private_key blocks))
  unfolding split_pem_block
  split_pem_block_lem laws s =
      split_loop_lem laws (length s) (P.decode s) ([], []) (λ block rest e. laws s block rest e)

-- What is stored is loaded, and the clock does not change the heap.
pub record IsHeap {W Object : Type 0} (S : System W) (H : Heap W Object) : Type 0 where
  pub load_store : (p : H.Pointer) (x : Object) (w : W) → H.load p (H.store p x w) ≡ x
  pub load_now : (p : H.Pointer) (w : W) → H.load p (S.now w).1 ≡ H.load p w

module _ {W : Type 0} (S : System W) (A : Confidential W)
    (H : Heap W (ClientAssertionCredential A.Client)) where
  -- The assertion of the credential, which was read at most five minutes before that time.
  abbrev pub IsFresh : H.Pointer → ℕ → W → Bytes → Type 0
  IsFresh c now w assertion =
      (now ≤ (H.load c w).last_read + 300000) × ((H.load c w).assertion ≡ assertion)

  kept :
      (laws : IsHeap S H) (c : H.Pointer) (now : ℕ) (x : Result Bytes × W) (assertion : Bytes)
      (v : W)
      → keep_assertion S A H c now x ≡ (ok assertion, v)
      → IsFresh c now v assertion
  kept laws c now (ok content, w) assertion v h =
      let x : ClientAssertionCredential A.Client = record (H.load c w) {
        assertion = content;
        last_read = now;
      } in
      let stored : H.load c v ≡ x =
        ap (H.load c) (sym (ap (λ (r : Result Bytes × W). r.1) h)) ∙ laws.load_store c x w in
      let same_text : ok content ≡ ok assertion = ap (λ (r : Result Bytes × W). r.0) h in
      let last : (H.load c v).last_read ≡ now =
        ap (λ (y : ClientAssertionCredential A.Client). y.last_read) stored in
      (
        omega (arith, last),
        ap (λ (y : ClientAssertionCredential A.Client). y.assertion) stored ∙ cc,
      )
  kept laws c now (err e, w) assertion v h = cc
  kept laws c now (panic, w) assertion v h = cc
  kept laws c now (out_of_fuel, w) assertion v h = cc

  is_stale : H.Pointer → W → Bool
  is_stale c w = ltb ((H.load c (S.now w).1).last_read + 300000) (S.now w).0

  unread :
      (c : H.Pointer) (w : W)
      → is_stale c w ≡ false
      → read_jwt_from_fs S A H c w ≡ (ok (H.load c (S.now w).1).assertion, (S.now w).1)
  unfolding is_stale read_jwt_from_fs
  unread c w e = rw (e, read_jwt_from_fs)

  read_again :
      (c : H.Pointer) (w : W)
      → is_stale c w ≡ true
      → read_jwt_from_fs S A H c w
        ≡ keep_assertion S A H c (S.now w).0 (S.read_file (H.load c (S.now w).1).file (S.now w).1)
  unfolding is_stale read_jwt_from_fs
  read_again c w e = rw (e, read_jwt_from_fs)

  recent :
      (c : H.Pointer) (w : W)
      → is_stale c w ≡ false
      → (S.now w).0 ≤ (H.load c (S.now w).1).last_read + 300000
  unfolding is_stale
  recent c w e = ground (arith, e)

  not_stale :
      (c : H.Pointer) (w : W)
      → (S.now w).0 ≤ (H.load c (S.now w).1).last_read + 300000
      → is_stale c w ≡ false
  unfolding is_stale
  not_stale c w h = ground (arith, h)

  returned-IsFresh :
      (laws : IsHeap S H) (c : H.Pointer) (assertion : Bytes) (w v : W)
      → read_jwt_from_fs S A H c w ≡ (ok assertion, v)
      → IsFresh c (S.now w).0 v assertion
  returned-IsFresh laws c assertion w v h = elim (Bool-cases (is_stale c w)) [
    | inl e ↦ kept laws c (S.now w).0 _ assertion v (sym (read_again c w e) ∙ h)
    | inr e ↦
        let same_answer : ◌≡◌ {A = Result Bytes × W}
            (ok (H.load c (S.now w).1).assertion, (S.now w).1) (ok assertion, v) =
          sym (unread c w e) ∙ h in
        let same_world : (S.now w).1 ≡ v = ap (λ (r : Result Bytes × W). r.1) same_answer in
        let same_text : ok (H.load c (S.now w).1).assertion ≡ ok assertion =
          ap (λ (r : Result Bytes × W). r.0) same_answer in
        let text : (H.load c (S.now w).1).assertion ≡ assertion = cc in
        (
          omega (arith, recent c w e, ap (λ (x : W). (H.load c x).last_read) same_world),
          ap (λ (x : W). (H.load c x).assertion) (sym same_world) ∙ text,
        )
  ]

  -- With a heap as one knows it, an assertion that is returned is the one that the credential keeps, and
  -- was read at most five minutes before, by the clock of the call. Every later call that sees the same
  -- credential no more than five minutes after it was read returns the same assertion, and does no more
  -- than read the clock.
  pub read_jwt_from_fs-IsFresh :
      (laws : IsHeap S H) (c : H.Pointer) (assertion : Bytes) (w v : W)
      → read_jwt_from_fs S A H c w ≡ (ok assertion, v)
      → IsFresh c (S.now w).0 v assertion
        × ((u : W)
            → H.load c u ≡ H.load c v
            → (S.now u).0 ≤ (H.load c v).last_read + 300000
            → read_jwt_from_fs S A H c u ≡ (ok assertion, (S.now u).1))
  read_jwt_from_fs-IsFresh laws c assertion w v h =
      let (young, text) = returned-IsFresh laws c assertion w v h in
      (
        (young, text),
        λ u same_credential soon.
            let seen : H.load c (S.now u).1 ≡ H.load c v = laws.load_now c u ∙ same_credential in
            unread c u (
              not_stale c u (
                omega
                  (arith, soon, ap (λ (y : ClientAssertionCredential A.Client). y.last_read) seen)))
            ∙ ap (λ (y : ClientAssertionCredential A.Client). (ok y.assertion, (S.now u).1)) seen
            ∙ ap (λ (a : Bytes). (ok a, (S.now u).1)) text,
      )
