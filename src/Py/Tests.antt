-- ===== src/Py/Tests.antt =====
-- Parsed templates, and the theorems at concrete inputs.
use rbatis.Ast.Defs.{
  to_nodes, NodeType, Nodes, n_string, n_if, n_for_each, n_choose, n_when, n_otherwise, nil, cons,
  whens, otherwise,
}
use rbatis.Ast.StringNode as Text
use rbatis.Py.Blocks.{block, last_line, find_child_str-block}
use rbatis.Py.Cache.{calls, calls-parser}
use rbatis.Py.RoundTrip.{parser-show}
use rbatis.Py.Safety.{string_node-bounds, parser-safe}
use rbatis.Py.Template.{
  Template, done, text_line, block_line, if_header, spaces, show_header, header_node, one_space,
  show_lines, show, template_nodes, starts_solid, IsWord, IsHeader, IsTemplate,
}
use rbatis.Py.Termination.{parser-body, parser_unique}
use rbatis.Text.Joined.{joined}
use rbatis.Py.Lines.{
  get_space, count_space, insert_spaces, create_line_space_map, gather, find_child_str,
}
use rbatis.Py.Node.{
  slice, express_fail, after_word, for_node, trim_node, tag_node, string_node, parser_node,
}
use rbatis.Py.Parser.{
  push_node, push_when, adopt_choice, adopt_texts, is_skipped, new_skip, first_space, adopt,
  adopt_parsed, adopt_block, read_block, read_node, read_line, read_lines, parser_body, parser_fuel,
  parser,
}
use rbatis.Text.Lines.{starts_line_feed, onto_line, lines}
use rbatis.Utils.StringUtil as StringUtil
use rbatis.Prelude.{◌≡◌, refl, true, false, some, List, [], ◌∷◌, Outcome, ok, err, panic, is_panic}
use rbatis.Text.{
  Str, codes, str_eq, is_empty, strip_prefix, starts_with, ends_with, find, contains, split_from,
  split, is_whitespace, trim_start, trim_end, trim,
}

py : Unit {0}
unfolding get_space count_space insert_spaces create_line_space_map gather find_child_str slice
    express_fail after_word for_node trim_node tag_node string_node parser_node to_nodes push_node
    push_when adopt_choice adopt_texts is_skipped new_skip first_space adopt adopt_parsed
    adopt_block read_block read_node read_line read_lines parser_body parser_fuel parser
    starts_line_feed onto_line lines Text.new Text.mark_entries StringUtil.find_convert_string
    StringUtil.find_no_convert_string StringUtil.find_marked StringUtil.before_comma
    StringUtil.distinct StringUtil.is_listed str_eq is_empty split split_from starts_with ends_with
    strip_prefix is_whitespace trim trim_start trim_end contains find
py = tt

abbrev parse : Str → Outcome (List NodeType)
parse = parser (λ finds. finds)

abbrev text : Str → NodeType
text s = n_string (Text.new (λ finds. finds) s)

-- A carriage return before a line feed goes, any other stays.
lines_mixed : lines (codes "ab\r\n\nc\r\r\n\rd") ≡ codes "ab" ∷ [] ∷ codes "c\r" ∷ codes "\rd" ∷ []
unfolding py
lines_mixed = refl

parse_if :
    parse (codes "  a\n  if x:\n    b\n    c\n\n  d\n")
    ≡ ok (
        text (codes " a")
        ∷ n_if (cons (text (codes " b")) (cons (text (codes " c")) nil)) (codes "x")
        ∷ text (codes " d")
        ∷ [])
unfolding py
parse_if = refl

abbrev each_i : Nodes → NodeType
each_i nodes = n_for_each nodes (record {
  collection = codes "x.y";
  index = [];
  item = codes "i";
  open_text = [];
  close = [];
  separator = [];
})

parse_nested :
    parse (codes "a\nif x:\n b\n for i in x.y:\n  c\nd\n  e")
    ≡ ok (
        text (codes "a")
        ∷ n_if
            (cons (text (codes " b")) (cons (each_i (cons (text (codes " c")) nil)) nil))
            (codes "x")
        ∷ text (codes "d e")
        ∷ [])
unfolding py
parse_nested = refl

parse_choose :
    parse (codes "choose x:\n when a:\n  b\n otherwise _:\n  c")
    ≡ ok (
        n_choose
          (whens (cons (n_when (cons (text (codes " b")) nil) (codes "a")) nil))
          (otherwise (n_otherwise (cons (text (codes " c")) nil)))
        ∷ [])
unfolding py
parse_choose = refl

-- A block that an empty line splits loses the part before it.
split_block :
    parse (codes "if x:\n b\n\n c") ≡ ok (n_if (cons (text (codes " c")) nil) (codes "x") ∷ [])
unfolding py
split_block = refl

choose_alone : parse (codes "choose:\n  when a:\n    b") ≡ err (codes "[rbatis] unknow tag: choose")
unfolding py
choose_alone = refl

-- A header without an item, or a single quote, panics.
for_in : parse (codes "for in ids:") ≡ panic
unfolding py
for_in = refl

trim_quote : parse (codes "trim ':") ≡ panic
unfolding py
trim_quote = refl

abbrev same : List Str → List Str
same finds = finds

abbrev nested : Template
nested = block_line (if_header (codes "x")) (text_line (codes "b") done) done

nested-IsTemplate : IsTemplate nested
unfolding IsTemplate IsHeader IsWord starts_solid py
nested-IsTemplate = ((refl, refl, (refl, tt)), (refl, refl, (refl, tt), tt), tt)

parser-show_example :
    parse (codes "if x:\n  b\n") ≡ ok (n_if (cons (text (codes " b")) nil) (codes "x") ∷ [])
unfolding py show show_lines spaces show_header joined template_nodes header_node one_space
parser-show_example = parser-show same 1 nested nested-IsTemplate

parser-body_example : parse (codes "if x:\n b") ≡ parser_body same parse (codes "if x:\n b")
parser-body_example = parser-body same (codes "if x:\n b")

parser_unique_example : parse (codes "if x:\n b") ≡ parse (codes "if x:\n b")
parser_unique_example = parser_unique same parse (parser-body same) (codes "if x:\n b")

parser-safe_example : is_panic (parse (codes "if x:\n b")) ≡ false
unfolding py
parser-safe_example =
    parser-safe same (codes "if x:\n b")
      ((refl, (refl, (refl, (refl, (refl, tt))))), ((refl, (refl, tt)), tt)) (refl, (refl, tt))

string_node-bounds_example : string_node same (codes "   b") 3 ≡ ok (text (codes " b"))
unfolding py
string_node-bounds_example = string_node-bounds same (codes "   b")

calls-parser_example :
    calls same ((true, true, codes "a") ∷ (true, false, codes "a") ∷ []) []
    ≡ ok (text (codes "a") ∷ []) ∷ ok (text (codes "a") ∷ []) ∷ []
unfolding py
calls-parser_example = calls-parser same ((true, true, codes "a") ∷ (true, false, codes "a") ∷ [])

find_child_str-block_example :
    find_child_str 1 1 (codes "a\n b\n  c\nd") (create_line_space_map (codes "a\n b\n  c\nd"))
    ≡ ok (codes " b\n  c\n", some 2)
unfolding py joined block last_line
find_child_str-block_example = find_child_str-block (codes "a\n b\n  c\nd") 1 1
