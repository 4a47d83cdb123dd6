-- ===== src/Common/Objects.antt =====
-- A property of a JavaScript object: absent, an own property that is undefined, or a value. The
-- spread of an object copies each own property, also one that is undefined; JSON.stringify leaves
-- those out.
use mathlib.Core.Path.{◌≡◌, refl}
use mathlib.Core.Option.{Option, none, some}

pub data Field {ℓ} (A : Type ℓ) : Type ℓ where
  absent : Field A
  undef : Field A
  val : A → Field A

module _ {ℓ} {A : Type ℓ} where
  -- `{ ...a, ...b }` at one property.
  abbrev pub spread : Field A → Field A → Field A
  spread a absent = a
  spread a undef = undef
  spread a (val x) = val x

  -- `JSON.parse(JSON.stringify(o))` at one property.
  abbrev pub stored : Field A → Field A
  stored absent = absent
  stored undef = absent
  stored (val x) = val x

  -- The value read from the property; `none` is `undefined`.
  abbrev pub read : Field A → Option A
  read absent = none
  read undef = none
  read (val x) = some x

  pub read-stored : (f : Field A) → read (stored f) ≡ read f
  read-stored absent = refl
  read-stored undef = refl
  read-stored (val x) = refl
