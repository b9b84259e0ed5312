-- ===== src/Base/Json.antt =====
-- JSON values, as `json.loads` gives them; its numbers are taken to be integers. A dict is an
-- association list whose keys are distinct.
use Prim.Native.String.{String}
use mathlib.Core.Bool.{Bool}
use mathlib.Core.Option.{Option, none, some}
use sovran_bitcoin.Base.Int.{ℤ}
use sovran_bitcoin.Base.Tests.{if◌then◌else◌}
use sovran_bitcoin.Base.Text.{◌=ₛ◌}

mutual
  pub data Json : Type 0 where
    null : Json
    bool : Bool → Json
    num : ℤ → Json
    str : String → Json
    arr : Items → Json
    obj : Fields → Json

  pub data Items : Type 0 where
    nil : Items
    cons : Json → Items → Items

  pub data Fields : Type 0 where
    end : Fields
    field : String → Json → Fields → Fields

-- A dict: `{}` is `end`.
abbrev pub Dict : Type 0
Dict = Fields

-- `d.get(k)`.
abbrev pub get : String → Dict → Option Json
get k end = none
get k (field j v fs) = if j =ₛ k then some v else get k fs
