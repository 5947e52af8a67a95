-- ===== src/Ingest/Values.antt =====
-- The values of `json.loads`.
use swelter.Prelude.{String, Bool, true, false, not, if◌then◌else◌, Option, none, some, str_eq}
use swelter.Prelude.Int.{ℤ, pos, eqb_ℤ}
use swelter.Float.{Float}

module _ (float : Float) where
  open float use {F, of_nat, eq}

  mutual
    pub data Json : Type 0 where
      null : Json
      bool : Bool → Json
      int : ℤ → Json
      number : F → Json
      text : String → Json
      array : Items → Json
      object : Fields → Json

    pub data Items : Type 0 where
      empty : Items
      item : Json → Items → Items

    -- An object, with the fields that stand for `dict` items.
    pub data Fields : Type 0 where
      nil : Fields
      cons : String → Json → Fields → Fields

  -- `payload.get(key)`
  unfoldable pub get : String → Fields → Option Json
  get k nil = none
  get k (cons name j rest) = let later = get k rest in if str_eq name k then some j else later

  -- `bool(value)`
  unfoldable pub is_truthy : Json → Bool
  is_truthy null = false
  is_truthy (bool b) = b
  is_truthy (int n) = not (eqb_ℤ n (pos 0))
  is_truthy (number x) = not (eq x (of_nat 0))
  is_truthy (text s) = not (str_eq s "")
  is_truthy (array empty) = false
  is_truthy (array (item j js)) = true
  is_truthy (object nil) = false
  is_truthy (object (cons name j rest)) = true
