-- ===== src/Session/Templates.antt =====
-- src/rbatis.rs: the statements of templates, in Python-like texts and in loaded mappers.
use rbatis.Ast.Defs.{NodeType, Nodes, to_nodes}
use rbatis.Ast.Eval as Tree
use rbatis.Driver.{DriverType}
use rbatis.Json.{Value}
use rbatis.Page.{IPageRequest}
use rbatis.Page.Result.{Page}
use rbatis.Py.Cache.{Cache, parser_and_cache}
use rbatis.Session.{Database, Session}
use rbatis.Session.Prepared.{Queries, driver_type, exec_prepare, fetch_prepare}
use rbatis.Session.Paging.{fetch_page}
use rbatis.Utils.ValueUtil.{to_result}
use rbatis.Xml.Loader.{XmlEvent}
use rbatis.Xml.Mapper as Mapper
use rbatis.Xml.Mapper.{MapperMap, find_node}
use rbatis.Prelude.{
  ℕ, Bool, Option, none, some, List, [], ◌∷◌, ◌++◌, if◌then◌else◌, Outcome, ok, err, panic, ◌>>=◌,
}
use rbatis.Text.{Str, codes, str_eq, trim}

-- `mapper_node_map`, the last mapper inserted in front.
abbrev pub Mappers : Type 0
Mappers = List (Str × MapperMap)

unfoldable pub find_mapper : Str → Mappers → Option MapperMap
find_mapper mapper [] = none
find_mapper mapper ((k, m) ∷ mappers) =
    if str_eq k mapper then some m else find_mapper mapper mappers

-- `load_xml`; the text is what the XML reader yields for it.
unfoldable pub load_xml : (List Str → List Str) → Str → List XmlEvent → Mappers → Outcome Mappers
load_xml order mapper_name events mappers = do
  xml ← Mapper.parser order events
  ok ((mapper_name, xml) ∷ mappers)

-- A text that was evaluated, without its outer spaces, and the arguments collected on the way.
unfoldable pub statement_of {ℓ} : {V : Type ℓ} → Outcome Str × List V → Outcome (Str × List V)
statement_of (ok sql, arg_array) = ok (trim sql, arg_array)
statement_of (err message, arg_array) = err message
statement_of (panic, arg_array) = panic

module _ {C W Q N : Type 0} (db : Database C W) (queries : Queries C W Q N)
    (order : List Str → List Str) (engine : Str → Value N → Outcome (Value N))
    (from_nat : ℕ → N) where
  -- The evaluation of nodes with the arguments of a call as the variables.
  unfoldable pub eval_nodes : Nodes → Value N → DriverType → Outcome (Str × List (Value N))
  eval_nodes nodes arg driver =
      let (sql, st) =
        Tree.do_child_nodes engine from_nat driver nodes (record { env = arg; arg_array = [] }) in
      statement_of (sql, st.arg_array)

  unfoldable pub eval_node : NodeType → Value N → DriverType → Outcome (Str × List (Value N))
  eval_node node arg driver =
      let (sql, st) =
        Tree.eval engine from_nat driver node (record { env = arg; arg_array = [] }) in
      statement_of (sql, st.arg_array)

  -- `read` and `write` are what the locks of the parser's map answer.
  unfoldable pub py_to_sql :
      Bool → Bool → Str → Value N → Cache → Session C W → Outcome (Str × List (Value N)) × Cache
  py_to_sql read write py arg cache s =
      let (parsed, after) = parser_and_cache order read write py cache in
      (
        parsed >>= λ nodes.
            driver_type db queries s >>= λ driver. eval_nodes (to_nodes nodes) arg driver,
        after,
      )

  unfoldable pub xml_to_sql :
      Mappers → Str → Str → Value N → Session C W → Outcome (Str × List (Value N))
  xml_to_sql mappers mapper method arg s = do
    x ←
        to_result (find_mapper mapper mappers)
          (codes "[rabtis] mapper:" ++ mapper ++ codes " not init to rbatis")
    node_type ←
        to_result (find_node x method) (
          codes "[rabtis] mapper:"
          ++ mapper
          ++ codes "."
          ++ method
          ++ codes "() not init to rbatis")
    driver ← driver_type db queries s
    eval_node node_type arg driver

  -- A statement with its arguments, and the call that takes it.
  unfoldable pub run_statement {ℓ} :
      {R : Type ℓ}
      → (Str → List (Value N) → Session C W → Outcome R × Session C W)
      → Outcome (Str × List (Value N))
      → Session C W
      → Outcome R × Session C W
  run_statement call (ok (sql, args)) s = call sql args s
  run_statement call (err message) s = (err message, s)
  run_statement call panic s = (panic, s)

  unfoldable pub py_exec :
      Bool → Bool → Str → Str → Value N → Cache → Session C W → (Outcome ℕ × Session C W) × Cache
  py_exec read write tx_id py arg cache s =
      let (statement, after) = py_to_sql read write py arg cache s in
      (run_statement (exec_prepare db queries tx_id) statement s, after)

  unfoldable pub xml_exec :
      Mappers → Str → Str → Str → Value N → Session C W → Outcome ℕ × Session C W
  xml_exec mappers tx_id mapper method arg s =
      run_statement (exec_prepare db queries tx_id) (xml_to_sql mappers mapper method arg s) s

  module _ {T : Type 0} (json_decode : List (Value N) → Outcome T) where
    unfoldable pub py_fetch :
        Bool → Bool → Str → Str → Value N → Cache → Session C W → (Outcome T × Session C W) × Cache
    py_fetch read write tx_id py arg cache s =
        let (statement, after) = py_to_sql read write py arg cache s in
        (run_statement (fetch_prepare db queries json_decode tx_id) statement s, after)

    unfoldable pub xml_fetch :
        Mappers → Str → Str → Str → Value N → Session C W → Outcome T × Session C W
    xml_fetch mappers tx_id mapper method arg s =
        run_statement (fetch_prepare db queries json_decode tx_id)
          (xml_to_sql mappers mapper method arg s) s

  module _ {T : Type 0} (create_page_sql : DriverType → Str → IPageRequest → Outcome (Str × Str))
      (decode_total : List (Value N) → Outcome (Option ℕ))
      (decode_rows : List (Value N) → Outcome (Option (List T))) where
    unfoldable pub page_of :
        Str → IPageRequest → Str → List (Value N) → Session C W → Outcome (Page T) × Session C W
    page_of tx_id page sql args s =
        fetch_page db queries create_page_sql decode_total decode_rows tx_id sql args page s

    unfoldable pub py_fetch_page :
        Bool
        → Bool
        → Str
        → Str
        → Value N
        → IPageRequest
        → Cache
        → Session C W
        → (Outcome (Page T) × Session C W) × Cache
    py_fetch_page read write tx_id py arg page cache s =
        let (statement, after) = py_to_sql read write py arg cache s in
        (run_statement (page_of tx_id page) statement s, after)

    unfoldable pub xml_fetch_page :
        Mappers
        → Str
        → Str
        → Str
        → Value N
        → IPageRequest
        → Session C W
        → Outcome (Page T) × Session C W
    xml_fetch_page mappers tx_id mapper method arg page s =
        run_statement (page_of tx_id page) (xml_to_sql mappers mapper method arg s) s
