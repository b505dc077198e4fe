-- ===== src/Base/JsonValues.antt =====
-- JSON values, for the columns of type JSONB and the values of type `any`.
use Prim.Native.String.{String}
use text.Mathlib.Text.{◌==◌ as str_eq}
use mathlib.Core.Bool.{Bool}
use mathlib.Core.Option.{Option, none, some}
use enterprise_kratos.Base.Tests.{if◌then◌else◌}

mutual
  pub data Json : Type 0 where
    null : Json
    bool : Bool → Json
    num : String → Json
    str : String → Json
    arr : Items → Json
    obj : Members → Json

  pub data Items : Type 0 where
    nil : Items
    cons : Json → Items → Items

  pub data Members : Type 0 where
    end : Members
    member : String → Json → Members → Members

-- A text member of an object: `m[k].(string)` of a `map[string]any`.
abbrev pub as_text : Json → Option String
as_text (str s) = some s
as_text _ = none

abbrev pub text_member : String → Members → Option String
text_member k end = none
text_member k (member j v ms) = if str_eq j k then as_text v else text_member k ms

-- `m[k] = v` of a `map[string]any`.
abbrev pub set_member : String → Json → Members → Members
set_member k v end = member k v end
set_member k v (member j w ms) =
    if str_eq j k then member k v ms else member j w (set_member k v ms)
