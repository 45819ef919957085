-- ===== src/Http/Tests.antt =====
-- Numbers as texts.
use ibdm.Base.{pos, negsuc, ◌≡◌, refl}
use ibdm.Http.{itoa, atoi}

itoa_positive : itoa (pos 1204) ≡ "1204"
unfolding itoa
itoa_positive = refl

itoa_negative : itoa (negsuc 9) ≡ "-10"
unfolding itoa
itoa_negative = refl

atoi_negative : atoi "-1204" ≡ negsuc 1203
unfolding atoi
atoi_negative = refl

atoi_out_of_range : atoi "9223372036854775809" ≡ pos 9223372036854775807
unfolding atoi
atoi_out_of_range = refl

atoi_no_number : atoi "12x" ≡ pos 0
unfolding atoi
atoi_no_number = refl
