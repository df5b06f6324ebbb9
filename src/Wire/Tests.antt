-- ===== src/Wire/Tests.antt =====
-- Numbers printed and read back at concrete values.
use greencloud.Base.{◌≡◌, refl, ◌++◌, codes, arith}
use greencloud.Base.Int.{negsuc, int32}
use greencloud.Wire.Decimal.{show, show_int, strtoul, strtol}
use greencloud.Wire.Decimal.RoundTrip.{strtoul-show, strtoul-show_int, strtol-show_int}

strtoul-show_example : strtoul (show 4096 ++ codes ";1;") ≡ (4096, codes ";1;")
strtoul-show_example = strtoul-show 4096 (codes ";1;") (omega arith) refl

strtoul-show_int_example :
    (int32 (strtoul (show_int (negsuc 4) ++ codes ";")).0 ≡ negsuc 4)
    × ((strtoul (show_int (negsuc 4) ++ codes ";")).1 ≡ codes ";")
strtoul-show_int_example = strtoul-show_int (negsuc 4) (codes ";") (omega arith) refl

strtol-show_int_example : strtol (show_int (negsuc 4) ++ codes ";") ≡ (negsuc 4, codes ";")
strtol-show_int_example = strtol-show_int (negsuc 4) (codes ";") (omega arith) refl
