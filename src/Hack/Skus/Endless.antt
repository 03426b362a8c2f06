-- ===== src/Hack/Skus/Endless.antt =====
-- The loop over the pages of sizes: what it finds, and when it does not end.
use gpu_provisioner.Base.{
  ℕ, zero, suc, ◌≡◌, ◌∙◌, refl, ap, ◌<◌, true, false, Option, none, some, List, [], ◌∷◌, ◌++◌,
  append_assoc, append-nil, arith,
}
use gpu_provisioner.Base.Text.{Bytes}
use gpu_provisioner.Base.Dict.{has_key}
use gpu_provisioner.Base.Result.{Err, Result, ok, err, panic, out_of_fuel}
use gpu_provisioner.Base.Effect.{continue}
use gpu_provisioner.Hack.Skus.{ResourceSku}
use gpu_provisioner.Hack.Skus.Listing.{Account, select, after_page, read_pages}

abbrev prepend : {A : Type 0} → List A → Result (List A) → Result (List A)
prepend xs (ok rest) = ok (xs ++ rest)
prepend xs r = r

prepend-nil : {A : Type 0} (r : Result (List A)) → prepend [] r ≡ r
prepend-nil (ok rest) = refl
prepend-nil (err e) = refl
prepend-nil panic = refl
prepend-nil out_of_fuel = refl

prepend_assoc :
    {A : Type 0} (xs ys : List A) (r : Result (List A))
    → prepend (xs ++ ys) r ≡ prepend xs (prepend ys r)
prepend_assoc xs ys (ok rest) = ap ok (append_assoc xs ys rest)
prepend_assoc xs ys (err e) = refl
prepend_assoc xs ys panic = refl
prepend_assoc xs ys out_of_fuel = refl

module _ {Float : Type 0} where
  -- The sizes whose names are among the targets, in their order; each size has a name.
  pub data Wanted (targets : List Bytes)
      : List (Option (ResourceSku Float)) → List (Option (ResourceSku Float)) → Type 0 where
    nothing : Wanted targets [] []
    kept :
        {sku : ResourceSku Float} {name : Bytes} {skus rest : List (Option (ResourceSku Float))}
        → sku.name ≡ some name
        → has_key name targets ≡ true
        → Wanted targets skus rest
        → Wanted targets (some sku ∷ skus) (some sku ∷ rest)
    dropped :
        {sku : ResourceSku Float} {name : Bytes} {skus rest : List (Option (ResourceSku Float))}
        → sku.name ≡ some name
        → has_key name targets ≡ false
        → Wanted targets skus rest
        → Wanted targets (some sku ∷ skus) rest

  -- One of the sizes is nil, or has no name.
  pub data IsNameless : List (Option (ResourceSku Float)) → Type 0 where
    nil_size : {skus : List (Option (ResourceSku Float))} → IsNameless (none ∷ skus)
    no_name :
        {sku : ResourceSku Float} {skus : List (Option (ResourceSku Float))}
        → sku.name ≡ none
        → IsNameless (some sku ∷ skus)
    behind :
        {sku : ResourceSku Float} {name : Bytes} {skus : List (Option (ResourceSku Float))}
        → sku.name ≡ some name
        → IsNameless skus
        → IsNameless (some sku ∷ skus)

  select-Wanted :
      (targets : List Bytes) {skus wanted : List (Option (ResourceSku Float))}
      → Wanted targets skus wanted
      → select targets skus ≡ ok wanted
  unfolding select
  select-Wanted targets nothing = refl
  select-Wanted targets (kept e h m) = rw (e, select-Wanted targets m, h) refl
  select-Wanted targets (dropped e h m) = rw (e, select-Wanted targets m, h) refl

  select-IsNameless :
      (targets : List Bytes) {skus : List (Option (ResourceSku Float))}
      → IsNameless skus
      → select targets skus ≡ panic
  unfolding select
  select-IsNameless targets nil_size = refl
  select-IsNameless targets (no_name e) = rw e refl
  select-IsNameless targets (behind e m) = rw (e, select-IsNameless targets m) refl

module _ {W Float : Type 0} (K : Account W Float) where
  -- Every call of `NextPage` fails, and leaves the pager as it is.
  abbrev pub IsDown : K.Pager → Type 0
  IsDown pager = (w : W) → (e : Err) × (v : W) × (K.next_page pager w ≡ ((err e, pager), v))

  -- The rounds of the loop, and what they find. A page that fails is one round more.
  pub data Rounds (targets : List Bytes)
      : K.Pager → W → ℕ → Result (List (Option (ResourceSku Float))) → W → Type 0 where
    done : {pager : K.Pager} {w : W} → K.more pager ≡ false → Rounds targets pager w 0 (ok []) w
    failed :
        {pager next : K.Pager} {w u v : W} {n : ℕ} {e : Err}
        {r : Result (List (Option (ResourceSku Float)))}
        → K.more pager ≡ true
        → K.next_page pager w ≡ ((err e, next), u)
        → Rounds targets next u n r v
        → Rounds targets pager w (suc n) r v
    page :
        {pager next : K.Pager} {w u v : W} {n : ℕ} {skus wanted : List (Option (ResourceSku Float))}
        {r : Result (List (Option (ResourceSku Float)))}
        → K.more pager ≡ true
        → K.next_page pager w ≡ ((ok skus, next), u)
        → Wanted targets skus wanted
        → Rounds targets next u n r v
        → Rounds targets pager w (suc n) (prepend wanted r) v
    nil_name :
        {pager next : K.Pager} {w u : W} {skus : List (Option (ResourceSku Float))}
        → K.more pager ≡ true
        → K.next_page pager w ≡ ((ok skus, next), u)
        → IsNameless skus
        → Rounds targets pager w 0 panic u

  module _ (targets : List Bytes) where
    turn :
        (fuel : ℕ) (pager : K.Pager) (found : List (Option (ResourceSku Float))) (w : W)
        → K.more pager ≡ true
        → read_pages K targets (suc fuel) pager found w
          ≡ after_page K targets (read_pages K targets fuel) found (K.next_page pager w)
    unfolding read_pages
    turn fuel pager found w m = rw (m, read_pages) refl

    answered :
        (fuel : ℕ) (pager : K.Pager) (found : List (Option (ResourceSku Float))) (w : W)
        {x : (Result (List (Option (ResourceSku Float))) × K.Pager) × W}
        → K.more pager ≡ true
        → K.next_page pager w ≡ x
        → read_pages K targets (suc fuel) pager found w
          ≡ after_page K targets (read_pages K targets fuel) found x
    answered fuel pager found w m e =
        turn fuel pager found w m ∙ ap (after_page K targets (read_pages K targets fuel) found) e

    found_before :
        (fuel : ℕ) (found : List (Option (ResourceSku Float))) {pager : K.Pager} {w v : W} {n : ℕ}
        {r : Result (List (Option (ResourceSku Float)))}
        → Rounds targets pager w n r v
        → n < fuel
        → read_pages K targets fuel pager found w ≡ (prepend found r, v)
    found_before zero found m h = elim h [ ]
    found_before (suc fuel) found (done {w = w} e) h =
        unfold read_pages in rw (e, read_pages) (rw (append-nil found) refl)
    found_before (suc fuel) found (failed {pager = g} {w = w} m e later) h =
        answered fuel g found w m e ∙ found_before fuel found later (omega arith)
    found_before (suc fuel) found
          (page {pager = g} {next} {w} {u} {v} {skus = skus} {wanted} {r} m e s later) h =
        answered fuel g found w m e
        ∙ ap
            (λ (x : Result (List (Option (ResourceSku Float)))).
              continue (x, u) (λ selected. read_pages K targets fuel next (found ++ selected)))
            (select-Wanted targets s)
        ∙ found_before fuel (found ++ wanted) later (omega arith)
        ∙ ap (λ (x : Result (List (Option (ResourceSku Float)))). (x, v))
            (prepend_assoc found wanted r)
    found_before (suc fuel) found (nil_name {pager = g} {next} {w} {u} m e s) h =
        answered fuel g found w m e
        ∙ ap
            (λ (x : Result (List (Option (ResourceSku Float)))).
              continue (x, u) (λ selected. read_pages K targets fuel next (found ++ selected)))
            (select-IsNameless targets s)

    -- If the pages end after `n` rounds, failed ones included, then with more fuel than that the loop ends, and
    -- finds the sizes with a wanted name in the order of the pages, or panics at the first page with a
    -- size that is nil or has no name; a failure is not reported.
    pub read_pages-Rounds :
        {pager : K.Pager} {w v : W} {n : ℕ} {r : Result (List (Option (ResourceSku Float)))}
        (fuel : ℕ)
        → Rounds targets pager w n r v
        → n < fuel
        → read_pages K targets fuel pager [] w ≡ (r, v)
    read_pages-Rounds {v} {r} fuel m h =
        found_before fuel [] m h
        ∙ ap (λ (x : Result (List (Option (ResourceSku Float)))). (x, v)) (prepend-nil r)

    -- If every call of `NextPage` fails and leaves the pager as it is, then the loop does not end with any
    -- fuel.
    pub read_pages-IsDown :
        (pager : K.Pager) (found : List (Option (ResourceSku Float))) (w : W) (fuel : ℕ)
        → K.more pager ≡ true
        → IsDown pager
        → (read_pages K targets fuel pager found w).0 ≡ out_of_fuel
    read_pages-IsDown pager found w zero more down = unfold read_pages in refl
    read_pages-IsDown pager found w (suc fuel) more down =
        let (e, v, failing) = down w in
        ap (λ (x : Result (List (Option (ResourceSku Float))) × W). x.0)
          (answered fuel pager found w more failing)
        ∙ read_pages-IsDown pager found v fuel more down
