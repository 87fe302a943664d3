-- ===== src/Examples/Texts.antt =====
-- The strings of include/libhat at concrete inputs.
use libhat.Prelude.{◌≡◌, refl, true, [], ◌∷◌, none, some, arith}
use libhat.Text.Fixed.{FixedString, construct, to_view, substr, ◌+++◌, equal}
use libhat.Text.FixedLaws.{IsFixed, substr-append}
use libhat.Text.CString.{of_fixed, of_c_str, c_str, substr_from}
use libhat.Text.CStringLaws.{
  IsTerminated, of_fixed-IsTerminated, IsRest, substr_from-IsRest, of_c_str-c_str,
}

-- "ab" and "c"
abbrev ab : FixedString
ab = record { size = 2; value = b'a' ∷ b'b' ∷ 0 ∷ [] }

abbrev just_c : FixedString
just_c = record { size = 1; value = b'c' ∷ 0 ∷ [] }

ab-IsFixed : IsFixed ab
ab-IsFixed = record { sized = refl; terminated = refl }

just_c-IsFixed : IsFixed just_c
just_c-IsFixed = record { sized = refl; terminated = refl }

appended : to_view (ab +++ just_c) ≡ b'a' ∷ b'b' ∷ b'c' ∷ []
unfolding to_view ◌+++◌ construct
appended = refl

substr-append_example :
    IsFixed (ab +++ just_c)
    × (equal (substr 0 (some 2) (ab +++ just_c)) ab ≡ true)
    × (equal (substr 2 none (ab +++ just_c)) just_c ≡ true)
substr-append_example = substr-append ab just_c ab-IsFixed just_c-IsFixed

view-IsTerminated : IsTerminated (of_fixed ab)
view-IsTerminated = of_fixed-IsTerminated ab ab-IsFixed

of_c_str-c_str_example : of_c_str (c_str (of_fixed ab)) ≡ of_fixed ab
of_c_str-c_str_example =
    of_c_str-c_str (of_fixed ab) view-IsTerminated
      ((λ e. omega (arith, e)), ((λ e. omega (arith, e)), tt))

substr_from-IsRest_example : IsRest (of_fixed ab) view-IsTerminated 1 (substr_from 1 (of_fixed ab))
substr_from-IsRest_example = substr_from-IsRest (of_fixed ab) view-IsTerminated 1
