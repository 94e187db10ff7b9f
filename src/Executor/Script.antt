-- ===== src/Executor/Script.antt =====
-- `RunJS` (executor/executor.go): the text that a script computes.
use crobe.Common.{String, if◌then◌else◌}
use crobe.Common.Result.{Result, ok, err}
use crobe.Executor.{Host, Context, machine}

abbrev pub map_ok : {A B : Type 0} → (A → B) → Result A → Result B
map_ok f (ok a) = ok (f a)
map_ok f (err e) = err e

module _ (h : Host) where
  open h use {World, JsValue, run_string, is_function, call, is_nullish, to_text}

  -- The part after `vm.RunString`.
  unfoldable pub finish_js : Result JsValue × Context × World → Result String × Context × World
  finish_js (err e, ctx, w) = (err e, ctx, w)
  finish_js (ok val, ctx, w) =
      if is_function val
      then (let (res, ctx', w') = call machine val ctx w in (map_ok to_text res, ctx', w'))
      else (ok (if is_nullish val then "" else to_text val), ctx, w)

  unfoldable pub run_js : String → Context → World → Result String × Context × World
  unfolding finish_js
  run_js code ctx w = finish_js (run_string machine code ctx w)
