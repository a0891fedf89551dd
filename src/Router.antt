-- ===== src/Router.antt =====
-- wire_rpc/router.py: a tree of routers, flattened at registration into one dict from full names to
-- entries. `_handlers` and `_specs` get the same keys in the same order, so one dict stands for both.
-- The handlers `H`, their specs and the middleware `M` are whatever the app registers.
pub mod Names
mod Examples
use Prim.Native.String.{◌++◌ as join}
use wire_rpc.Prelude.{String, string_eq, Option, none, some, List, [], ◌∷◌, ◌++◌}
use wire_rpc.Prelude.Dict
use wire_rpc.Prelude.Dict.{Dict}

mutual
  pub data Router (H M : Type 0) : Type 0 where
    router : String → Dict String H → List M → Routers H M → Router H M

  pub data Routers (H M : Type 0) : Type 0 where
    no_child : Routers H M
    child : Router H M → Routers H M → Routers H M

-- HandlerEntry
pub record Entry (H M : Type 0) : Type 0 where
  pub handler : H
  pub middleware : List M

module _ {H M : Type 0} where
  -- entries[f"{full_prefix}{name}"] = HandlerEntry(...)
  unfoldable pub add_local :
      String → List M → Dict String H → Dict String (Entry H M) → Dict String (Entry H M)
  add_local full chain [] entries = entries
  add_local full chain ((name, h) ∷ rest) entries =
      add_local full chain rest
        (Dict.put (join full name) (record { handler = h; middleware = chain }) entries)

-- f"{prefix}{self.prefix}."
abbrev pub full_prefix : String → String → String
full_prefix prefix own = join prefix (join own ".")

unfoldable mutual
  -- `_flatten`
  pub flatten : {H M : Type 0} → Router H M → String → List M → Dict String (Entry H M)
  flatten (router own handlers middleware children) prefix parent =
      flatten_all children (full_prefix prefix own) (parent ++ middleware)
        (add_local (full_prefix prefix own) (parent ++ middleware) handlers [])

  -- entries.update(child._flatten(...)) for each child
  pub flatten_all :
      {H M : Type 0}
      → Routers H M
      → String
      → List M
      → Dict String (Entry H M)
      → Dict String (Entry H M)
  flatten_all no_child prefix chain entries = entries
  flatten_all (child r rest) prefix chain entries =
      flatten_all rest prefix chain (Dict.update entries (flatten r prefix chain))
