-- ===== src/Engine/Tests.antt =====
-- Runs of the expression engine, and the theorems at concrete inputs. Numbers are ℕ here, with its
-- operations for those of `f64`.
use rbatis.Engine.Caching.{IsCoherent, IsParsed, eval-eval_no_cache}
use rbatis.Engine.Chains.{
  Chain, last, link, head, rest, nodes, operators_of, IsOperand, AllOperands, merge, merge_all,
  merge_with, attach, yield, yields,
}
use rbatis.Engine.Eval as Eval
use rbatis.Engine.Eval.{Numeric}
use rbatis.Engine.Lexing.{IsWord, parser_tokens_word}
use rbatis.Engine.Node as Node
use rbatis.Engine.Node.{Node, new_arg, new_string, new_number, new_binary, new_opt}
use rbatis.Engine.Operators as Operators
use rbatis.Engine.Operators.{priorities, is_member}
use rbatis.Engine.Parser as Parser
use rbatis.Engine.Paths.{IsPart, eval-get_deep_value}
use rbatis.Engine.Precedence.{IsPending, replace_all-merge_all, replace_all_one, replace_all_right}
use rbatis.Engine.Runtime as Runtime
use rbatis.Engine.Runtime.{Cache, lookup, lexer_arg, Locks}
use rbatis.Engine.Tokens as Tokens
use rbatis.Engine.Tokens.{utf8_len, trim_push_back, parser_tokens}
use rbatis.Json.{Value, get, is_null, bool, number, object, field, end}
use rbatis.Utils.ValueUtil.{get_deep_value}
use Prim.Native.String.{String}
use rbatis.Prelude.{
  ◌++◌, ℕ, ◌+◌, ◌-◌, ◌*◌, ◌/◌, ◌≡◌, refl, true, false, Option, some, [], ◌∷◌, ltb, leb, ◌==◌,
  if◌then◌else◌, length, ok,
}
use rbatis.Text.{
  Str, codes, str_eq, is_empty, strip_prefix, starts_with, find, contains, replace_from, replace,
  split_from, split, trim_start, trim_end, trim, is_whitespace,
}

abbrev value_of_digits : Str → ℕ → Option ℕ
value_of_digits [] n = some n
value_of_digits (c ∷ s) n = value_of_digits s (n * 10 + (c - b'0'))

abbrev arithmetic : Numeric ℕ ℕ
arithmetic = record {
  as_f64 = λ n. n;
  from_f64 = λ n. some n;
  add = λ a b. a + b;
  sub = λ a b. a - b;
  mul = λ a b. a * b;
  div = λ a b. a / b;
  same = λ a b. a == b;
  less = ltb;
  at_most = leb;
  parse_f64 = λ s. value_of_digits s 0;
  parse_i64 = λ s. value_of_digits s 0;
}

engine : Unit {0}
unfolding Operators.new Operators.operators priorities Operators.entries_of Operators.has_key
    Operators.is_opt is_member Operators.is_allow_opt Tokens.is_number Tokens.utf8_width utf8_len
    trim_push_back Tokens.back Tokens.pop_back Tokens.push_opt Tokens.is_quote Tokens.read
    Tokens.read_all parser_tokens Node.parser Node.is_quoted Node.quote_span Node.or_zero Node.rfind
    Node.parse_number Node.new_number_f64 Node.new_number_of Node.eval Node.get_path
    Node.get_or_null Node.or_null Node.value Parser.parser Parser.parse_tokens Parser.check_opt
    Parser.first_node Parser.replace_all Parser.find_replace_opt Parser.again_if Parser.have_opt
    Parser.replace_first Parser.replace_after Parser.prepend Parser.join_right Parser.is_operator
    Eval.eval Eval.eq Eval.and_values Eval.or_values Eval.add_values Eval.calculate
    Eval.compare_values Eval.number_of Eval.both_f64 Eval.as_bool Eval.unsupported
    Runtime.eval_no_cache Runtime.eval Runtime.eval_cached Runtime.eval_new lookup lexer_arg head
    rest operators_of AllOperands IsOperand merge_all merge merge_with attach yield yields IsPending
    IsPart IsWord IsCoherent IsParsed str_eq is_empty split split_from find contains replace
    replace_from starts_with strip_prefix get is_null trim trim_start trim_end
engine = tt

abbrev env : Value ℕ
env = object (
    field (codes "a") (number 7)
      (field (codes "b") (object (field (codes "c") (number 2) end)) end))

run_tests :
    (parser_tokens Operators.new (codes "a >= b.c && 'x y' != null")
      ≡ codes "a"
        ∷ codes ">="
        ∷ codes "b.c"
        ∷ codes "&&"
        ∷ codes "'x y'"
        ∷ codes "!="
        ∷ codes "null"
        ∷ [])
    × (Runtime.eval_no_cache arithmetic Operators.new (codes "a + b.c * 2 >= 11") env
        ≡ ok (bool true))
    × (Runtime.eval_no_cache arithmetic Operators.new (codes "a - 1 + 1") env ≡ ok (number 5))
unfolding engine
run_tests = (refl, refl, refl)

abbrev leaf : String → Node ℕ
leaf name = new_string (codes name)

abbrev sum : Chain ℕ
sum = link (leaf "a") (codes "+") (link (leaf "b") (codes "*") (last (leaf "c")))

replace_all-merge_all_example :
    Parser.replace_all priorities (nodes sum) ≡ ok (nodes (merge_all priorities sum))
unfolding engine
replace_all-merge_all_example = replace_all-merge_all priorities sum (tt, (tt, tt))

replace_all_one_example :
    (node : Node ℕ) × (Parser.replace_all priorities (nodes sum) ≡ ok (node ∷ []))
    × (yield node ≡ yields sum)
unfolding engine
replace_all_one_example = replace_all_one priorities sum (tt, (tt, tt)) (refl, (refl, tt))

replace_all_right_example :
    (Parser.replace_all priorities
        (leaf "a" ∷ new_opt (codes "-") ∷ leaf "b" ∷ new_opt (codes "+") ∷ leaf "c" ∷ [])
      ≡ ok (new_binary (leaf "a") (new_binary (leaf "b") (leaf "c") (codes "+")) (codes "-") ∷ []))
    × (Parser.replace_all priorities
          (leaf "a" ∷ new_opt (codes "/") ∷ leaf "b" ∷ new_opt (codes "*") ∷ leaf "c" ∷ [])
        ≡ ok
            (new_binary (leaf "a") (new_binary (leaf "b") (leaf "c") (codes "*")) (codes "/") ∷ []))
unfolding engine
replace_all_right_example = replace_all_right (leaf "a") (leaf "b") (leaf "c") tt tt tt

abbrev locks : Locks
locks = record { can_read = true; can_write = false }

abbrev cache : Cache ℕ
cache = (codes "a", new_arg (codes "a" ∷ [])) ∷ []

eval-eval_no_cache_example :
    ((Runtime.eval arithmetic Operators.new locks (codes "a") env cache).0
      ≡ Runtime.eval_no_cache arithmetic Operators.new (lexer_arg (codes "a")) env)
    × IsCoherent arithmetic Operators.new
        (Runtime.eval arithmetic Operators.new locks (codes "a") env cache).1
unfolding engine
eval-eval_no_cache_example =
    eval-eval_no_cache arithmetic Operators.new locks (codes "a") env cache (refl, tt)

-- "né", three bytes
abbrev name : Str
name = b'n' ∷ 0xe9 ∷ []

-- A letter of two bytes: no token.
parser_tokens_word_example : parser_tokens Operators.new (codes " " ++ (name ++ [])) ≡ (
    if length (codes " " ++ (name ++ [])) == utf8_len (codes " " ++ (name ++ []))
    then name ∷ []
    else [])
unfolding engine is_whitespace
parser_tokens_word_example =
    parser_tokens_word Operators.new (codes " ") name [] (refl, tt) (refl, refl) tt
      ((refl, refl), ((refl, refl), ((refl, refl), tt)))

eval-get_deep_value_example :
    Node.eval arithmetic (new_arg (split (codes "b.c") (codes "."))) env
    ≡ ok (get_deep_value (codes "b.c") env)
unfolding engine
eval-get_deep_value_example = eval-get_deep_value arithmetic (codes "b.c") env (refl, (refl, tt))
