-- ===== src/Plugin/Stderr/Sample.antt =====
-- For the tests, a test of bytes as ASCII.
use wasmi_plugin_framework.Base.{
  ◌≡◌, refl, sym, ap, ◌∙◌, Bool, true, [], ◌∷◌, ◌++◌, ◌&&◌, ltb, arith,
}
use wasmi_plugin_framework.Bytes.{Bytes}
use wasmi_plugin_framework.Plugin.Stderr.Text.{IsText}

abbrev pub is_ascii : Bytes → Bool
is_ascii [] = true
is_ascii (b ∷ bs) = ltb b 128 && is_ascii bs

is_ascii-append :
    (xs ys : Bytes) → is_ascii (xs ++ ys) ≡ true → (is_ascii xs ≡ true) × (is_ascii ys ≡ true)
is_ascii-append [] ys h = (refl, h)
is_ascii-append (x ∷ xs) ys h = ground (arith, is_ascii-append xs ys)

pub is_ascii-IsText :
    (closed : Bool) (stream : Bytes) → is_ascii stream ≡ true → IsText is_ascii closed stream
is_ascii-IsText closed stream h before part behind e some_part start end =
    (is_ascii-append part behind
      (is_ascii-append before (part ++ behind) (ap (λ x. is_ascii x) (sym e) ∙ h)).1).0
