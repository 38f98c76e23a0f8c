-- ===== src/FilterDsl/Tests.antt =====
-- Runs of the filter language on the inputs of its own documentation.
use retrace.Prelude.{
  ℕ, ◌≡◌, ◌≢◌, ◌≤◌, refl, subst, ◌↔◌, Bool, true, false, none, some, [], ◌∷◌, arith, CStr, codes,
  leb, All, str_eq,
}
use retrace.Prelude.Int.{ℤ, pos, negsuc}
use retrace.CallerCache.{Cache}
use retrace.CallerMatch.{DlInfo}
use retrace.Glob.{asterisk}
use retrace.Glob.Matching.{Matches}
use retrace.FilterDsl.Ast.{
  eq, ne, glob, lt, num, str, param, Node, and, negation, cmp, ok, error, no_fuel, ◌>>=◌,
}
use retrace.FilterDsl.GlobStep.{glob_match}
use retrace.FilterDsl.Element.{Eats}
use retrace.FilterDsl.GlobMatch.{glob_match-Matches, glob_match-star}
use retrace.FilterDsl.Parsing.{compile}
use retrace.FilterDsl.Descent.{size, Typed}
use retrace.FilterDsl.Compiled.{compile-Typed, compile-ends}
use retrace.FilterDsl.Eval.{Resolver, lookup_str, eval_node, ThreadContext, eval, tctx_num}
use retrace.FilterDsl.Meaning.{Holds, eval_node-Holds}
use retrace.FilterDsl.ThreadCall.{eval-numbers}

always : ℕ → Bool
always n = true

compile_and_not :
    compile always (some (codes "fd == -3 and not (path ~ \"a\\\"*\")"))
    ≡ ok (record {
      root =
          and
            (cmp eq (param (codes "fd")) (num (negsuc 2)))
            (negation (cmp glob (param (codes "path")) (str (codes "a\"*"))));
      node_cnt = 4;
      arena_len = 332;
    })
unfolding compile always ◌>>=◌ str_eq
compile_and_not = refl

compile_typed :
    compile always (some (codes "func < 3"))
    ≡ error 8 (codes "relational operators need numeric operands")
unfolding compile always ◌>>=◌ str_eq
compile_typed = refl

trailing_text : compile always (some (codes "a==1|1")) ≡ error 4 (codes "unexpected trailing input")
unfolding compile always ◌>>=◌ str_eq
trailing_text = refl

class_run : glob_match leb (some (codes "/tmp/[!a-c]?*")) (some (codes "/tmp/dxyz")) ≡ some true
unfolding glob_match
class_run = refl

-- A name with no star, and a pattern with a star and a class.
abbrev digit_text : CStr
digit_text = codes "ab7"

abbrev digit_pattern : CStr
digit_pattern = codes "a*[0-9]"

glob_match-Matches_example :
    (b : Bool) × (glob_match leb (some digit_pattern) (some digit_text) ≡ some b)
    × ((b ≡ true) ↔ Matches (Eats leb) digit_pattern digit_text)
glob_match-Matches_example =
    glob_match-Matches leb digit_pattern digit_text (omega arith, (omega arith, (omega arith, tt)))

glob_match-star_example :
    (glob_match leb (some (codes "*")) (some (codes "*x")) ≡ some false)
    × Matches (Eats leb) (codes "*") (codes "*x")
glob_match-star_example = glob_match-star leb b'x' []

one_term :
    compile always (some (codes "fd==1"))
    ≡ ok (record { root = cmp eq (param (codes "fd")) (num (pos 1)); node_cnt = 1; arena_len = 83 })
unfolding compile always ◌>>=◌ str_eq
one_term = refl

compile-Typed_example :
    Typed (cmp eq (param (codes "fd")) (num (pos 1)))
    × (◌≡◌ {A = ℕ} 1 (size (cmp eq (param (codes "fd")) (num (pos 1)))))
    × (size (cmp eq (param (codes "fd")) (num (pos 1))) ≤ 16)
compile-Typed_example = compile-Typed always (codes "fd==1") _ one_term

compile-ends_example : ¬ (compile always (some (codes "((a==1) or b==2")) ≡ no_fuel)
compile-ends_example = compile-ends always (codes "((a==1) or b==2")

-- A domain in which every name is 3, and the text "/x".
abbrev sample : Resolver
sample = record { num_of = λ name. some (pos 3); str_of = λ name. some (some (codes "/x")) }

abbrev sample_node : Node
sample_node =
    and (cmp glob (param (codes "path")) (str (codes "/*")))
      (cmp lt (param (codes "fd")) (num (pos 5)))

some-inj {ℓ} : {A : Type ℓ} {x y : A} → some x ≡ some y → x ≡ y
some-inj h = cc

sample_plain : (s : CStr) → some (some (codes "/x")) ≡ some (some s) → All (λ c. c ≢ asterisk) s
sample_plain s e =
    subst (All (λ c. c ≢ asterisk)) (some-inj (some-inj e)) (omega arith, (omega arith, tt))

eval_node-Holds_example :
    (b : Bool) × (eval_node leb sample sample_node ≡ some b)
    × ((b ≡ true) ↔ Holds leb sample sample_node)
unfolding lookup_str
eval_node-Holds_example = eval_node-Holds leb sample sample_node (sample_plain, sample_plain)

abbrev empty_cache : Cache DlInfo
empty_cache = record { entries = []; hits = 0; misses = 0 }

abbrev no_memory : ℤ → CStr
no_memory address = []

-- A call with the numbers 1 and 2.
abbrev two_numbers : ThreadContext
two_numbers = record {
  ret_val = pos 0;
  ret_addr = 0;
  params =
      record { name = codes "from"; modifiers = 0; ref_type_name = []; val = pos 1 }
      ∷ record { name = codes "to"; modifiers = 0; ref_type_name = []; val = pos 2 }
      ∷ [];
}

from_number : tctx_num no_memory empty_cache two_numbers none (codes "from") ≡ some (pos 1)
unfolding tctx_num str_eq
from_number = refl

to_number : tctx_num no_memory empty_cache two_numbers none (codes "to") ≡ some (pos 2)
unfolding tctx_num str_eq
to_number = refl

eval-numbers_example :
    (eval leb no_memory empty_cache
        (some (record {
          root = cmp eq (param (codes "from")) (param (codes "to"));
          node_cnt = 1;
          arena_len = 88;
        }))
        (some two_numbers)
        none
      ≡ some true)
    × (eval leb no_memory empty_cache
          (some (record {
            root = cmp ne (param (codes "from")) (param (codes "to"));
            node_cnt = 1;
            arena_len = 88;
          }))
          (some two_numbers)
          none
        ≡ some false)
unfolding str_eq
eval-numbers_example =
    eval-numbers no_memory empty_cache two_numbers none leb (codes "from") (codes "to") (pos 1)
      (pos 2) 1 88 (refl, refl, refl) (refl, refl, refl) from_number to_number
