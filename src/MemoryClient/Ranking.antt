-- ===== src/MemoryClient/Ranking.antt =====
-- What a search answers, with the service and without it.
use claude_library.Prelude.{
  ℕ, ◌-◌, ◌<◌, ◌≤◌, max, suc, zero, String, ◌≡◌, refl, sym, ◌∙◌, ap, Bool, Option, List, [], ◌∷◌,
  ◌++◌, arith, leb, length, length-append, filter, take, All, ◌&&◌, Bool-cases, inl, inr,
}
use mathlib.Core.List.{append-nil, append_assoc}
use claude_library.Prelude.Int.{ℤ, leb_ℤ, ◌≤ℤ◌}
use claude_library.Prelude.Dict.{values}
use claude_library.MemoryBreaker.Calls.{Outcome, call}
use claude_library.MemoryClient.Fallback.{Item, InMemoryFallback, matches, search_from, search}
use claude_library.MemoryClient.State.{Failure, Reply, answered, MemoryMcpClient}
use claude_library.MemoryClient.Client.{Attempt, unavailable, attempt, score, vector_search}

take-nil : (n : ℕ) → take {A = Item} n [] ≡ []
take-nil zero = refl
take-nil (suc n) = refl

module _ (lower : String → String) (query : String) (project_id task_type : Option String) where
  abbrev wanted : Item → Bool
  wanted = matches lower query project_id task_type

  -- The loop adds what it still may.
  search_from_lem :
      (limit : ℕ) (results items : List Item)
      → length results < max 1 limit
      → search_from lower query project_id task_type limit results items
        ≡ results ++ take (max 1 limit - length results) (filter wanted items)
  unfolding search_from
  search_from_lem limit results [] h =
      sym (append-nil results) ∙ ap (◌++◌ results) (sym (take-nil (max 1 limit - length results)))
  search_from_lem limit results (item ∷ items) h =
      let grown = length-append results (item ∷ []) in
      elim (Bool-cases (wanted item)) [
        | inl e ↦ elim (Bool-cases (leb limit (length (results ++ item ∷ [])))) [
          | inl f ↦
              let one : max 1 limit - length results ≡ suc zero = ground (arith, f, grown) in
              rw (search_from, e, f)
                (ap (λ n. results ++ take n (item ∷ filter wanted items)) (sym one))
          | inr f ↦
              let more : max 1 limit - length results
                  ≡ suc (max 1 limit - length (results ++ item ∷ [])) =
                ground (arith, f, grown) in
              let rest =
                search_from_lem limit (results ++ item ∷ []) items (ground (arith, f, grown)) in
              rw (search_from, e, f)
                (rest
                  ∙ append_assoc results (item ∷ []) _
                  ∙ ap (λ n. results ++ take n (item ∷ filter wanted items)) (sym more))
        ]
        | inr e ↦ rw (search_from, e) (search_from_lem limit results items h)
      ]

  search-take :
      (limit : ℕ) (f : InMemoryFallback)
      → search lower query project_id task_type limit f
        ≡ take (max 1 limit) (filter wanted (values f))
  unfolding search
  search-take limit f =
      search_from_lem limit [] (values f) (omega arith)
      ∙ ap (λ n. take n (filter wanted (values f))) (omega arith)

abbrev pub has_score : ℤ → Item → Bool
has_score s item = leb_ℤ (score item) s && leb_ℤ s (score item)

-- The scores fall from item to item.
abbrev pub IsRanked : List Item → Type 0
IsRanked [] = Unit
IsRanked (a ∷ items) = All (λ b. score b ≤ℤ score a) items × IsRanked items

module _ (dumps : Item → String) (loads : String → Item) (lower : String → String) (start now : ℕ)
    (o : Outcome (List Item) Failure) (query : String) (project_id task_type : Option String)
    (limit : ℕ) (c : MemoryMcpClient) where
  abbrev reply : Reply (List Item)
  reply = (vector_search dumps loads lower start now o query project_id task_type limit c).0

  abbrev done : Attempt (List Item)
  done = attempt (call start now o c.circuit_breaker).0

  -- A search of at least one item that the service does not answer, since the breaker refuses it or the
  -- call fails, answers with the first tasks of the fallback that match the query and the filters, in
  -- the order in which they were stored, as many as the limit says or all where there are fewer.
  pub search_degrades :
      1 ≤ limit
      → done ≡ unavailable
      → reply
        ≡ answered
            (take limit (filter (matches lower query project_id task_type) (values c.fallback)))
  unfolding vector_search
  search_degrades h e =
      rw (reply, vector_search, e)
        (ap answered (search-take lower query project_id task_type limit c.fallback)
          ∙ ap
              (λ n.
                answered
                  (take n (filter (matches lower query project_id task_type) (values c.fallback))))
              (omega arith))
