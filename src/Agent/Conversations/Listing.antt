-- ===== src/Agent/Conversations/Listing.antt =====
-- The order of the list of conversations: `sortConversationSummaries` of
-- frontend/src/features/agent/model/agent-panel-context.ts, over a consistent collation.
use Prim.Native.Nat.{compare}
use mathlib.Core.List.{Perm}
use mathlib.Core.Path.{subst}
use rune_terminal.Base.{
  ℕ, ◌≡◌, refl, sym, true, false, none, some, List, [], ◌∷◌, if◌then◌else◌, arith, All, All-imp,
}
use rune_terminal.Locale.{Locale, locale_compare}
use rune_terminal.Sort.{Comparator, IsConsistent, is_gt, or_then, sort, insert}
use rune_terminal.Sort.Compare.{
  on-IsConsistent, flip-IsConsistent, or_then-IsConsistent, compare-IsConsistent,
}
use rune_terminal.Sort.Laws.{IsSorted, sort-perm, sort-All, sort-IsSorted}
use rune_terminal.Agent.MessageView.{Dates}
use rune_terminal.Agent.Conversations.{
  AgentConversationSummary, is_listed, sort_key, compare_times, compare_conversation_summaries,
  sort_conversation_summaries,
}

-- Sorting by two comparisons that agree on the values of a list.
module _ {A : Type 0} (c d : Comparator A) (P : A → Type 0)
    (agree : (x y : A) → P x → P y → c x y ≡ d x y) where
  insert-agree : (x : A) (ys : List A) → P x → All P ys → insert c x ys ≡ insert d x ys
  unfolding insert
  insert-agree x [] p h = refl
  insert-agree x (y ∷ ys) p (q, h) = rw (agree x y p q, insert-agree x ys p h) refl

  sort-agree : (xs : List A) → All P xs → sort c xs ≡ sort d xs
  unfolding sort
  sort-agree [] h = refl
  sort-agree (x ∷ xs) (p, h) =
      rw (sort-agree xs h) (insert-agree x (sort d xs) p (sort-All d P xs h))

  first-agree :
      (x : A) (ys : List A)
      → P x
      → All P ys
      → All (λ y. is_gt (d x y) ≡ false) ys
      → All (λ y. is_gt (c x y) ≡ false) ys
  first-agree x [] p h k = tt
  first-agree x (y ∷ ys) p (q, h) (k, ks) = (rw (agree x y p q) k, first-agree x ys p h ks)

  IsSorted-agree : (xs : List A) → All P xs → IsSorted d xs → IsSorted c xs
  IsSorted-agree [] h s = tt
  IsSorted-agree (x ∷ xs) (p, h) (first, s) = (first-agree x xs p h first, IsSorted-agree xs h s)

-- No archived conversation stands before one that is not.
abbrev pub ListedFirst : List AgentConversationSummary → Type 0
ListedFirst [] = Unit
ListedFirst (x ∷ xs) = All (λ y. is_listed y ≡ true → is_listed x ≡ true) xs × ListedFirst xs

module _ (dates : Dates) ⦃l : Locale⦄ where
  -- The time by which a conversation is sorted is one.
  abbrev pub IsDated : AgentConversationSummary → Type 0
  IsDated c = (t : ℕ) × (dates.parse (sort_key c) ≡ some t)

  rank : AgentConversationSummary → ℕ
  rank c = if is_listed c then 0 else 1

  time : AgentConversationSummary → ℕ
  time c = elim (dates.parse (sort_key c)) [ none ↦ 0 | some t ↦ t ]

  by_rank_and_time : Comparator AgentConversationSummary
  by_rank_and_time x y =
      or_then (compare (rank x) (rank y))
        (or_then (compare (time y) (time x)) (locale_compare y.id x.id))

  compare-agree :
      (x y : AgentConversationSummary)
      → IsDated x
      → IsDated y
      → compare_conversation_summaries dates x y ≡ by_rank_and_time x y
  unfolding compare_conversation_summaries compare_times by_rank_and_time rank time
  compare-agree x y (t, e) (u, f) = rw (e, f) (ground arith)

  by_rank_and_time-IsConsistent : IsConsistent locale_compare → IsConsistent by_rank_and_time
  unfolding by_rank_and_time
  by_rank_and_time-IsConsistent collates =
      or_then-IsConsistent _ (on-IsConsistent compare compare-IsConsistent rank) _ (
        or_then-IsConsistent _ (flip-IsConsistent compare compare-IsConsistent time) _
          (flip-IsConsistent locale_compare collates (λ (c : AgentConversationSummary). c.id)))

  ListedFirst-of_IsSorted :
      (xs : List AgentConversationSummary)
      → IsSorted (compare_conversation_summaries dates) xs
      → ListedFirst xs
  unfolding compare_conversation_summaries
  ListedFirst-of_IsSorted [] s = tt
  ListedFirst-of_IsSorted (x ∷ xs) (first, s) =
      (All-imp xs (λ y h k. ground arith) first, ListedFirst-of_IsSorted xs s)

  -- If the host's string comparison is consistent and each conversation has a time to be sorted by, the
  -- list holds the same conversations, in the order of the comparison, and no archived one stands before
  -- one that is not.
  pub sort_conversation_summaries_lem :
      (conversations : List AgentConversationSummary)
      → IsConsistent locale_compare
      → All IsDated conversations
      → Perm (sort_conversation_summaries dates conversations) conversations
        × IsSorted
            (compare_conversation_summaries dates)
            (sort_conversation_summaries dates conversations)
        × ListedFirst (sort_conversation_summaries dates conversations)
  unfolding sort_conversation_summaries
  sort_conversation_summaries_lem conversations collates dated =
      let c = compare_conversation_summaries dates in
      let in_order : IsSorted c (sort c conversations) =
        IsSorted-agree c by_rank_and_time IsDated compare-agree (sort c conversations)
          (sort-All c IsDated conversations dated)
          (subst (IsSorted by_rank_and_time)
            (sym (sort-agree c by_rank_and_time IsDated compare-agree conversations dated))
            (sort-IsSorted by_rank_and_time (by_rank_and_time-IsConsistent collates)
              conversations)) in
      (sort-perm c conversations, in_order, ListedFirst-of_IsSorted (sort c conversations) in_order)
