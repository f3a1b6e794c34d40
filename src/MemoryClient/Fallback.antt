-- ===== src/MemoryClient/Fallback.antt =====
-- `InMemoryFallback`, and the dicts that the client handles.
use claude_library.Prelude.{
  ℕ, String, Bool, true, ◌&&◌, Option, none, some, List, [], ◌∷◌, ◌++◌, leb, if◌then◌else◌, length,
}
use Prim.Native.String.{find, len}
use claude_library.Prelude.Int.{ℤ}
use claude_library.Prelude.Key.{string_key, ◌=?◌}
use claude_library.Prelude.Dict.{Dict, values, lookup, insert}

-- A dict of a task, by the entries that the code reads: those of `metadata` are named by their last
-- key. `rest` is what it does not read.
pub record Item : Type 0 where
  pub content : Option String
  pub task_id : Option String
  pub project_id : Option String
  pub intent : Option String
  pub similarity_score : Option ℤ
  pub rest : String

abbrev pub InMemoryFallback : Type 0
InMemoryFallback = Dict String Item

abbrev pub or_unknown : Option String → String
or_unknown none = "unknown"
or_unknown (some id) = id

unfoldable pub store : Item → InMemoryFallback → InMemoryFallback
store payload f = insert (or_unknown payload.task_id) payload f

unfoldable pub get : String → InMemoryFallback → Option Item
get task_id f = lookup task_id f

abbrev pub or_empty : Option String → String
or_empty none = ""
or_empty (some t) = t

-- A filter that is None or empty lets everything through.
abbrev pub passes : Option String → Option String → Bool
passes none value = true
passes (some wanted) none = wanted =? ""
passes (some wanted) (some v) = if wanted =? "" then true else v =? wanted

module _ (lower : String → String) where
  -- `query_lower in content`
  abbrev pub matches : String → Option String → Option String → Item → Bool
  matches query project_id task_type item =
      leb (find (lower (or_empty item.content)) (lower query)) (len (lower (or_empty item.content)))
      && passes project_id item.project_id
      && passes task_type item.intent

  -- The loop, which looks at the limit after it has added an entry.
  unfoldable pub search_from :
      String → Option String → Option String → ℕ → List Item → List Item → List Item
  search_from query project_id task_type limit results [] = results
  search_from query project_id task_type limit results (item ∷ items) =
      let grown = results ++ item ∷ [] in
      let on = search_from query project_id task_type limit grown items in
      let past = search_from query project_id task_type limit results items in
      if matches query project_id task_type item
      then (if leb limit (length grown) then grown else on)
      else past

  unfoldable pub search : String → Option String → Option String → ℕ → InMemoryFallback → List Item
  unfolding search_from
  search query project_id task_type limit f =
      search_from query project_id task_type limit [] (values f)
