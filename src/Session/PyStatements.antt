-- ===== src/Session/PyStatements.antt =====
-- src/rbatis.rs: the statement of a Python-like template, from its text to its arguments.
use rbatis.Ast.Defs.{to_nodes}
use rbatis.Json.{Value}
use rbatis.Py.Cache.{Cache, IsParsed, IsFaithful, parser_and_cache-IsFaithful}
use rbatis.Py.RoundTrip.{parser-show}
use rbatis.Py.Template.{Template, show, template_nodes, IsTemplate}
use rbatis.Session.{Database, Session}
use rbatis.Session.Prepared.{Queries, driver_type}
use rbatis.Session.Templates.{eval_nodes, py_to_sql}
use rbatis.Prelude.{ℕ, ◌≡◌, refl, Bool, List, All, Outcome, ◌>>=◌}
use rbatis.Text.{Str}

module _ {C W Q N : Type 0} (db : Database C W) (queries : Queries C W Q N)
    (order : List Str → List Str) (engine : Str → Value N → Outcome (Value N)) (from_nat : ℕ → N)
    (width : ℕ) where
  -- Whatever the locks answer, if each entry of the map of parsed texts is what the parser makes of
  -- its key, and the template's texts and words are those that the parser reads back, the statement of
  -- the template's text is the evaluation of its nodes on the session's driver, an error if it is not
  -- linked.
  pub py_to_sql-show :
      (read write : Bool) (t : Template) (arg : Value N) (cache : Cache) (s : Session C W)
      → IsTemplate t
      → All (IsParsed order) cache
      → (py_to_sql db queries order engine from_nat read write (show order width t) arg cache s).0
        ≡ (driver_type db queries s >>= λ driver.
            eval_nodes db queries order engine from_nat
              (to_nodes (template_nodes order width 0 t))
              arg
              driver)
  unfolding py_to_sql IsFaithful
  py_to_sql-show read write t arg cache s good coherent =
      let faithful =
        parser_and_cache-IsFaithful order read write (show order width t) cache coherent in
      rw (faithful.0, parser-show order width t good) refl
