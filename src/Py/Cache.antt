-- ===== src/Py/Cache.antt =====
-- src/ast/lang/py.rs: `parser_and_cache`, over the map PY_PARSER_MAP behind its lock.
use rbatis.Ast.Defs.{NodeType}
use rbatis.Py.Parser.{parser}
use rbatis.Prelude.{
  ◌≡◌, refl, sym, ap, ◌∙◌, inl, inr, Bool, true, false, Option, none, some, List, [], ◌∷◌, map,
  if◌then◌else◌, Bool-cases, All, Outcome, ok, err, panic,
}
use rbatis.Text.{Str, str_eq, str_eq_iff}

-- The map, its last insertion in front.
abbrev pub Cache : Type 0
Cache = List (Str × List NodeType)

unfoldable pub get_nodes : Str → Cache → Option (List NodeType)
get_nodes py [] = none
get_nodes py ((k, nodes) ∷ cache) = if str_eq k py then some nodes else get_nodes py cache

-- `write` is whether `try_write` gets the lock.
unfoldable pub try_cache_into : Bool → Str → List NodeType → Cache → Cache
try_cache_into write py nodes cache = if write then (py, nodes) ∷ cache else cache

module _ (order : List Str → List Str) where
  unfoldable pub parse_into :
      Bool → Str → Cache → Outcome (List NodeType) → Outcome (List NodeType) × Cache
  parse_into write arg cache (ok nods) = (ok nods, try_cache_into write arg nods cache)
  parse_into write arg cache (err message) = (err message, cache)
  parse_into write arg cache panic = (panic, cache)

  -- A hit is returned as it is; a miss, like a map that cannot be read, is parsed.
  unfoldable pub cached :
      Bool → Str → Cache → Option (List NodeType) → Outcome (List NodeType) × Cache
  cached write arg cache (some nodes) = (ok nodes, cache)
  cached write arg cache none = parse_into write arg cache (parser order arg)

  -- `read` is whether `try_read` gets the lock.
  unfoldable pub parser_and_cache : Bool → Bool → Str → Cache → Outcome (List NodeType) × Cache
  parser_and_cache read write arg cache =
      cached write arg cache (if read then get_nodes arg cache else none)

  -- Calls one after the other, each with what its locks answer.
  unfoldable pub calls : List (Bool × Bool × Str) → Cache → List (Outcome (List NodeType))
  calls [] cache = []
  calls ((read, write, arg) ∷ rest) cache =
      let (result, after) = parser_and_cache read write arg cache in result ∷ calls rest after

  -- An entry holds what the parser makes of its key.
  unfoldable pub IsParsed : Str × List NodeType → Type 0
  IsParsed (py, nodes) = parser order py ≡ ok nodes

  get_nodes-IsParsed :
      (py : Str) (cache : Cache) (nodes : List NodeType)
      → All IsParsed cache
      → get_nodes py cache ≡ some nodes
      → parser order py ≡ ok nodes
  unfolding get_nodes IsParsed
  get_nodes-IsParsed py [] nodes h e = cc
  get_nodes-IsParsed py ((k, found) ∷ cache) nodes (p, h) e = elim (Bool-cases (str_eq k py)) [
    | inl same ↦
        let hit : some found ≡ some nodes = rw same at e in
        let key : k ≡ py = (str_eq_iff k py).0 same in rw (← key) (p ∙ cc)
    | inr other ↦ get_nodes-IsParsed py cache nodes h (rw (get_nodes, other) at e)
  ]

  unfoldable pub IsFaithful : Str → Outcome (List NodeType) × Cache → Type 0
  IsFaithful arg (result, after) = (result ≡ parser order arg) × All IsParsed after

  parse_into-IsFaithful :
      (write : Bool) (arg : Str) (cache : Cache) (parsed : Outcome (List NodeType))
      → parser order arg ≡ parsed
      → All IsParsed cache
      → IsFaithful arg (parse_into write arg cache parsed)
  unfolding parse_into IsFaithful IsParsed try_cache_into
  parse_into-IsFaithful true arg cache (ok nods) e h = (sym e, (e, h))
  parse_into-IsFaithful false arg cache (ok nods) e h = (sym e, h)
  parse_into-IsFaithful write arg cache (err message) e h = (sym e, h)
  parse_into-IsFaithful write arg cache panic e h = (sym e, h)

  cached-IsFaithful :
      (write : Bool) (arg : Str) (cache : Cache) (found : Option (List NodeType))
      → ((nodes : List NodeType) → found ≡ some nodes → parser order arg ≡ ok nodes)
      → All IsParsed cache
      → IsFaithful arg (cached write arg cache found)
  unfolding cached
  cached-IsFaithful write arg cache (some nodes) hit h =
      unfold IsFaithful in (sym (hit nodes refl), h)
  cached-IsFaithful write arg cache none hit h =
      parse_into-IsFaithful write arg cache (parser order arg) refl h

  pub parser_and_cache-IsFaithful :
      (read write : Bool) (arg : Str) (cache : Cache)
      → All IsParsed cache
      → IsFaithful arg (parser_and_cache read write arg cache)
  unfolding parser_and_cache
  parser_and_cache-IsFaithful true write arg cache h =
      cached-IsFaithful write arg cache (get_nodes arg cache)
        (λ nodes e. get_nodes-IsParsed arg cache nodes h e) h
  parser_and_cache-IsFaithful false write arg cache h =
      cached-IsFaithful write arg cache none (λ nodes e. cc) h

  calls-from :
      (rest : List (Bool × Bool × Str)) (cache : Cache)
      → All IsParsed cache
      → calls rest cache ≡ map (λ (read, write, arg). parser order arg) rest
  unfolding calls IsFaithful
  calls-from [] cache h = refl
  calls-from ((read, write, arg) ∷ rest) cache h =
      let faithful = parser_and_cache-IsFaithful read write arg cache h in
      ap (λ o. o ∷ calls rest (parser_and_cache read write arg cache).1) faithful.0
      ∙ ap (λ os. parser order arg ∷ os)
          (calls-from rest (parser_and_cache read write arg cache).1 faithful.1)

  -- Whatever the locks answer, and whatever was parsed before, each call returns what the parser
  -- makes of its text.
  pub calls-parser :
      (rest : List (Bool × Bool × Str))
      → calls rest [] ≡ map (λ (read, write, arg). parser order arg) rest
  calls-parser rest = calls-from rest [] tt
