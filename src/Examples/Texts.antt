-- ===== src/Examples/Texts.antt =====
-- Texts and numbers, at concrete inputs.
use crobe.Common.{◌≡◌, refl, String}
use crobe.Common.Text.{Every, trim_space, is_space, itoa}
use crobe.Executor.Cleanup.{IsClean, cleanup_output, cleanup_output-Clean}

trim_space_test : trim_space " \t two words\n" ≡ "two words"
unfolding trim_space is_space
trim_space_test = refl

itoa_test : itoa 2075 ≡ "2075"
unfolding itoa
itoa_test = refl

-- A stripping that finds nothing.
abbrev strip : String → String
strip s = s

cleanup_output-Clean_example :
    Every IsClean (cleanup_output strip " two\tlines\n")
    × (Every IsClean (strip " two\tlines\n")
        → cleanup_output strip " two\tlines\n" ≡ trim_space (strip " two\tlines\n"))
    × (cleanup_output (λ s. s) (cleanup_output strip " two\tlines\n")
        ≡ cleanup_output strip " two\tlines\n")
cleanup_output-Clean_example = cleanup_output-Clean strip " two\tlines\n"
