-- ===== src/Fake/Clone.antt =====
-- pkg/fake/atomic.go: copies of values by way of their JSON.
use gpu_provisioner.Base.{◌≡◌, ap, ◌∙◌, Option, some}
use gpu_provisioner.Base.Text.{Bytes}
use gpu_provisioner.Base.Result.{Result, ok, err, panic, out_of_fuel, ◌>>=◌}

-- Package encoding/json for one type. A pointer that is nil can be encoded too.
pub record Json (T : Type 0) : Type 0 where
  pub encode : Option T → Result Bytes
  pub decode : Bytes → Result T

-- `log.Fatalf` ends the program; it counts as a panic.
abbrev pub fatal : {T : Type 0} → Result T → Result T
fatal (ok a) = ok a
fatal (err e) = panic
fatal panic = panic
fatal out_of_fuel = out_of_fuel

unfoldable pub clone : {T : Type 0} → Json T → Option T → Result T
clone json v = do buf ← fatal (json.encode v); fatal (json.decode buf)

-- The documented behaviour for types whose fields are all exported: a value can be encoded, and what is
-- decoded is the value.
pub record IsJson {T : Type 0} (json : Json T) : Type 0 where
  pub round_trip :
      (v : T) → (buf : Bytes) × (json.encode (some v) ≡ ok buf) × (json.decode buf ≡ ok v)

pub clone-some : {T : Type 0} {json : Json T} → IsJson json → (v : T) → clone json (some v) ≡ ok v
unfolding clone
clone-some {json = json} laws v =
    let (buf, encoded, decoded) = laws.round_trip v in
    ap (λ (r : Result Bytes). fatal r >>= λ b. fatal (json.decode b)) encoded ∙ ap fatal decoded
