-- ===== src/Executor/Cleanup.antt =====
-- `CleanupOutput` (executor/executor.go). `stripansi.Strip` is a parameter.
use Prim.Native.Char.{Char, code}
use crobe.Common.{
  arith, ◌≤◌, ◌⊎◌, inl, inr, ◌≡◌, refl, ap, ◌∙◌, false, if-elim, Bool, not, ◌&&◌, ◌||◌, String,
  if◌then◌else◌, ltb, eqb,
}
use crobe.Common.Text.{trim_space, trim_space_idem, Every, trim_space-Every}

-- The test of the function that `strings.Map` gets: what it drops.
unfoldable pub is_dropped : Char → Bool
is_dropped c =
    let r = code c in eqb r 7 || ltb r 32 && (not (eqb r 10) && (not (eqb r 13) && not (eqb r 9)))

unfoldable pub drop_controls : String → String
drop_controls String.[] = ""
drop_controls (String.◌∷◌ c s) =
    let rest = drop_controls s in if is_dropped c then rest else String.◌∷◌ c rest

unfoldable pub cleanup_output : (String → String) → String → String
unfolding drop_controls
cleanup_output strip input = trim_space (drop_controls (strip input))

-- No control character of ASCII but the tab and the ends of lines; the delete character (127) is none here.
abbrev pub IsClean : Char → Type 0
IsClean c = (32 ≤ code c) ⊎ ((code c ≡ 9) ⊎ ((code c ≡ 10) ⊎ (code c ≡ 13)))

kept-IsClean : (c : Char) → is_dropped c ≡ false → IsClean c
unfolding is_dropped
kept-IsClean c h = ground arith

IsClean-kept : (c : Char) → IsClean c → is_dropped c ≡ false
unfolding is_dropped
IsClean-kept c (inl h) = ground arith
IsClean-kept c (inr (inl h)) = ground arith
IsClean-kept c (inr (inr (inl h))) = ground arith
IsClean-kept c (inr (inr (inr h))) = ground arith

drop_controls-Clean : (s : String) → Every IsClean (drop_controls s)
unfolding drop_controls
drop_controls-Clean String.[] = tt
drop_controls-Clean (String.◌∷◌ c s) =
    if-elim (Every IsClean) (is_dropped c) (drop_controls s) (String.◌∷◌ c (drop_controls s))
      (λ e. drop_controls-Clean s) (λ e. (kept-IsClean c e, drop_controls-Clean s))

drop_controls_same : (s : String) → Every IsClean s → drop_controls s ≡ s
unfolding drop_controls
drop_controls_same String.[] h = refl
drop_controls_same (String.◌∷◌ c s) h =
    rw (IsClean-kept c h.0) (ap (String.◌∷◌ c) (drop_controls_same s h.1))

-- Whatever the stripping of escape sequences leaves, every character of a cleaned output has a code of 32 or
-- more, or is the tab, the line feed or the carriage return. If the stripping leaves only such characters, the
-- cleaned output is what it leaves, trimmed, so that nothing else is dropped. Cleaning a cleaned output once
-- more, without the stripping, changes nothing.
pub cleanup_output-Clean :
    (strip : String → String) (input : String)
    → Every IsClean (cleanup_output strip input)
      × (Every IsClean (strip input) → cleanup_output strip input ≡ trim_space (strip input))
      × (cleanup_output (λ s. s) (cleanup_output strip input) ≡ cleanup_output strip input)
unfolding cleanup_output
cleanup_output-Clean strip input =
    let clean =
      trim_space-Every IsClean (drop_controls (strip input)) (drop_controls-Clean (strip input)) in
    (
      clean,
      λ h. ap trim_space (drop_controls_same (strip input) h),
      ap trim_space (drop_controls_same (trim_space (drop_controls (strip input))) clean)
          ∙ trim_space_idem (drop_controls (strip input)),
    )
