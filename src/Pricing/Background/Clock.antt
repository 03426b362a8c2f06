-- ===== src/Pricing/Background/Clock.antt =====
-- A fetch of the prices takes time, and the clock does not go back in it.
use gpu_provisioner.Base.{ℕ, zero, suc, ◌≤◌, inl, inr, Bool-cases, [], ◌∷◌, arith, ◌==◌}
use gpu_provisioner.Base.Text.{Bytes}
use gpu_provisioner.Base.Result.{Result, ok, err, panic, out_of_fuel}
use gpu_provisioner.Base.Effect.{M, continue}
use gpu_provisioner.Pricing.Client.{
  ProductsPricePage, Http, fetch_page, page_loop, get_products_price_pages,
}
use gpu_provisioner.Pricing.{Provider, fetch_on_demand_pricing, update_on_demand_pricing}

module _ {W Price : Type 0} (http : Http W Price ℕ) (now : W → ℕ) where
  -- A call takes time, and the clock does not go back.
  pub record IsForward : Type 0 where
    pub get_forward : (url : Bytes) (w : W) → now w ≤ now (http.get url w).1
    pub read_forward : (body : ℕ) (w : W) → now w ≤ now (http.read_all body w).1

  continue-forward :
      {A B : Type 0} (t : ℕ) (x : Result A × W) (f : A → M W B)
      → t ≤ now x.1
      → ((a : A) (v : W) → now v ≤ now (f a v).1)
      → t ≤ now (continue x f).1
  continue-forward t (ok a, w) f h k = omega (arith, h, k a w)
  continue-forward t (err e, w) f h k = h
  continue-forward t (panic, w) f h k = h
  continue-forward t (out_of_fuel, w) f h k = h

  module _ (laws : IsForward) where
    fetch_page-forward : (url : Bytes) (w : W) → now w ≤ now (fetch_page http url w).1
    unfolding fetch_page
    fetch_page-forward url w =
        continue-forward (now w) (http.get url w) _ (laws.get_forward url w) λ res v.
          elim (Bool-cases (res.status_code == 200)) [
            | inl e ↦ rw e (
                continue-forward (now v) (http.read_all res.body v) _ (laws.read_forward res.body v)
                  (λ body u. omega arith))
            | inr e ↦ rw e (omega arith)
          ]

    page_loop-forward :
        {S : Type 0} (handler : ProductsPricePage Price ℕ → S → S) (fuel : ℕ) (url : Bytes) (s : S)
        (w : W)
        → now w ≤ now (page_loop http handler fuel url s w).1
    unfolding page_loop
    page_loop-forward handler zero url s w = omega arith
    page_loop-forward handler (suc n) [] s w = omega arith
    page_loop-forward handler (suc n) (c ∷ url) s w =
        continue-forward (now w) (fetch_page http (c ∷ url) w) _ (fetch_page-forward (c ∷ url) w)
          (λ page v. page_loop-forward handler n page.next_page_link (handler page s) v)

    pub update-forward :
        (fuel : ℕ) (p : Provider Price ℕ) (w : W)
        → now w ≤ now (update_on_demand_pricing http now fuel p w).1
    unfolding update_on_demand_pricing fetch_on_demand_pricing get_products_price_pages
    update-forward fuel p w = page_loop-forward _ fuel _ [] w
