-- ===== src/Lib.antt =====
-- Verification library of rbatis, the ORM over SQL templates and query builders.
--
-- The parts and the files that model them (paths from the repository's root):
-- - rbatis-core/src/convert.rs, `DriverType` of rbatis-core/src/db.rs, src/sql/limit.rs: Driver.
-- - src/wrapper.rs, the builder of conditions: Wrapper. `Defs` has the record and the methods that
--   link and trim, `Calls` the methods that add a condition, `Invocations` the calls as data, `Chain` and `Check`
--   what a chain of them keeps.
-- - src/plugin/page.rs: Page. `Request` is `PageRequest`, `Result` is `Page`, `Defs` the plugin.
-- - src/plugin/logic_delete.rs: LogicDelete.
-- - src/engine, the expressions of templates: Engine. `Operators` is `OptMap`, `Tokens` the lexer,
--   `Node` and `Parser` the parsers, `Eval` the operators on values, `Runtime` the cache. `Chains`
--   describes the parser's result without its loops.
-- - src/ast/node, the nodes of a template: Ast. `Defs` is `NodeType`, `StringNode` a text with
--   markers, `Nodes` the evaluation of each kind of node, `Eval` that of the tree, `Print` its text.
-- - src/crud.rs and src/sql/date.rs: Crud. `Fields` is the trait `CRUDEnable`, `Statements` has what
--   each operation hands to the session, `Session` runs it.
-- - src/ast/lang/py.rs, templates by indentation: Py. `Lines`, `Node` and `Parser` are the parser,
--   `Cache` the map of parsed texts, `Template` the trees of which `RoundTrip` speaks.
-- - src/ast/lang/xml.rs and src/utils/xml_loader.rs, mappers in XML: Xml. `Loader` builds the
--   elements, `Decode` the nodes, `Mapper` the map; `Template` has the trees of which `RoundTrip`
--   speaks. `Inclusion` and `Defined` describe the map.
-- - src/rbatis.rs: Session, with begin, commit, rollback and exec; `Prepared` has the pool, prepared
--   statements and queries, `Paging` is `fetch_page`, `Templates` the statements of templates.
--   `Statements` has what statements keep of it; `Transactions` and `Isolation` follow a transaction's
--   connection along a sequence of calls.
-- - rbatis-core/src/db.rs, the pool, connections and transactions over three drivers: Db. `Backend` is
--   what it uses of a driver, `Pool`, `Bind`, `Conn` and `Tx` are its structs' methods.
-- - rbatis-core/src/decode.rs, rows as a value of a type: Decode. `Totals` joins it to `fetch_page`.
-- - src/utils/string_util.rs, value_util.rs, error_util.rs, join_in.rs, src/decode/decoder.rs: Utils.
-- Prelude and Text hold what all parts share: lists, tests, outcomes, and Rust's string functions
-- over lists of code points. Json has the values of serde_json, over a parameter for its numbers.
--
-- How they interact: a template's nodes evaluate tests and arguments with the expression engine,
-- which is a parameter of Ast; texts and wrappers get their placeholders from the driver, numbered by
-- the arguments collected so far; the CRUD statements are built from wrappers, and the plugins rewrite
-- them. A session turns a template's text, or a node of a loaded mapper, into a statement with its
-- arguments, binds them to a query of its pool and runs it on a connection of the pool or of a
-- transaction.
--
-- A fallible function returns an `Outcome`: a value, an error with its message, or a panic. A
-- method that changes its object returns the new one; a node's evaluation passes the variables and
-- the arguments on, and an error keeps the changes made before it. Loops are recursions on their
-- list; the fuel of `strip_all` is the length of the text, and each of its rounds removes a
-- character; the fuel of `find_replace_opt` is one more than the number of nodes, and each of its
-- calls removes two; the fuel of the parser of indented templates is one more than the number of
-- lines, and it calls itself on fewer lines. Arithmetic on `u64` wraps at 2 ^ 64 where the source
-- can overflow. The order in which a `HashMap` lists its keys, whether a lock is free, and the
-- arithmetic of `f64` are arguments.
--
-- Not modelled: the database drivers under rbatis-core (a fork of sqlx), their decoding of columns,
-- serde, logging, the XML reader, and the macros of rbatis-macro-driver. The calls of a
-- database are a parameter of Session, with the world they change, as are those of each driver in Db.
pub mod Prelude
pub mod Text
pub mod Driver
pub mod Json
pub mod Wrapper
pub mod Page
pub mod LogicDelete
pub mod Engine
pub mod Utils
pub mod Ast
pub mod Crud
pub mod Decode
pub mod Session
pub mod Db
pub mod Py
pub mod Xml
