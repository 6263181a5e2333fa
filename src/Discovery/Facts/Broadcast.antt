-- ===== src/Discovery/Facts/Broadcast.antt =====
-- discovery-service.ts: which groups `broadcastKnownGroups` announces, and in which order.
use dchat_desktop.Common.{
  Bool, not, select, ℕ, zero, suc, ◌≤◌, String, none, List, [], ◌∷◌, ◌++◌, ◌≡◌, refl, sym, ◌∙◌, ap,
  map, take, length, string_eq, arith, Option-cases, inl, inr,
}
use mathlib.Core.List.{append_assoc, append-nil}
use text.Mathlib.TextEquality.{eq_iff}
use dchat_desktop.Types.Topic.{Topic, DiscoveredGroup, AnnouncementGroup}
use dchat_desktop.Table.{find, IsKeyed, append-IsKeyed, find-append}
use dchat_desktop.Store.Db.{topic_key, discovered_key, is_some}
use dchat_desktop.Discovery.Cache.{Files}
use dchat_desktop.Discovery.Announcing.{
  announced_key, put, put_new, put_topics, put_discovered, announced_groups, of_topic,
  of_discovered,
}

length-take : {A : Type 0} (n : ℕ) (xs : List A) → length (take n xs) ≤ n
length-take zero xs = omega arith
length-take (suc n) [] = omega arith
length-take (suc n) (x ∷ xs) = omega (arith, length-take n xs)

find-take :
    (k : String) (n : ℕ) (xs : List AnnouncementGroup)
    → find announced_key k xs ≡ none
    → find announced_key k (take n xs) ≡ none
unfolding find
find-take k zero xs h = refl
find-take k (suc n) [] h = refl
find-take k (suc n) (x ∷ xs) h = ground (arith, h, find-take k n xs)

take-IsKeyed :
    (n : ℕ) (xs : List AnnouncementGroup)
    → IsKeyed announced_key xs
    → IsKeyed announced_key (take n xs)
take-IsKeyed zero xs v = tt
take-IsKeyed (suc n) [] v = tt
take-IsKeyed (suc n) (x ∷ xs) v = (find-take x.topic_id n xs v.0, take-IsKeyed n xs v.1)

-- An entry with a new key goes to the end.
put-new :
    (g : AnnouncementGroup) (xs : List AnnouncementGroup)
    → find announced_key g.topic_id xs ≡ none
    → put g xs ≡ xs ++ g ∷ []
unfolding put find
put-new g [] h = refl
put-new g (x ∷ xs) h = ground (arith, h, put-new g xs)

-- The group has no entry yet.
abbrev is_new : List AnnouncementGroup → DiscoveredGroup → Bool
is_new xs g = not (is_some (find announced_key g.topic_name xs))

select-append :
    (e : AnnouncementGroup) (xs : List AnnouncementGroup) (known : List DiscoveredGroup)
    → find discovered_key e.topic_id known ≡ none
    → select (is_new (xs ++ e ∷ [])) known ≡ select (is_new xs) known
unfolding select find
select-append e xs [] h = refl
select-append e xs (g ∷ known) h = ground (
  arith,
  h,
  find-append announced_key g.topic_name xs e,
  select-append e xs known,
  eq_iff g.topic_name e.topic_id,
  eq_iff e.topic_id g.topic_name,
)

-- What the second loop makes of the entries: it adds to them.
record Grown (xs more ys : List AnnouncementGroup) : Type 0 where
  same : ys ≡ xs ++ more
  keyed : IsKeyed announced_key ys

module _ (files : Files) where
  put_discovered-Grown :
      (known : List DiscoveredGroup) (xs : List AnnouncementGroup)
      → IsKeyed announced_key xs
      → IsKeyed discovered_key known
      → Grown xs
          (map (of_discovered files) (select (is_new xs) known))
          (put_discovered files known xs)
  unfolding put_discovered put_new select
  put_discovered-Grown [] xs v k = record { same = sym (append-nil xs); keyed = v }
  put_discovered-Grown (g ∷ known) xs v k =
      elim (Option-cases (find announced_key g.topic_name xs)) [
        | inr (x, old) ↦ rw (ap is_some old) (put_discovered-Grown known xs v k.1)
        | inl new ↦
            let e = of_discovered files g in
            let rest =
              put_discovered-Grown known (xs ++ e ∷ []) (append-IsKeyed announced_key e xs new v)
                k.1 in
            rw (ap is_some new, put-new e xs new)
              (record {
                same =
                    rest.same
                    ∙ append_assoc xs (e ∷ []) _
                    ∙ ap (λ gs. xs ++ e ∷ map (of_discovered files) gs)
                        (select-append e xs known k.0);
                keyed = rest.keyed;
              })
      ]

  -- No entry has the key of a topic that is still to come.
  abbrev Apart : List AnnouncementGroup → List Topic → Type 0
  Apart xs [] = Unit
  Apart xs (t ∷ ts) = (find announced_key t.id xs ≡ none) × Apart xs ts

  Apart-append :
      (e : AnnouncementGroup) (xs : List AnnouncementGroup) (ts : List Topic)
      → find topic_key e.topic_id ts ≡ none
      → Apart xs ts
      → Apart (xs ++ e ∷ []) ts
  unfolding find
  Apart-append e xs [] h a = tt
  Apart-append e xs (t ∷ ts) h a = (
    ground (
      arith,
      h,
      a.0,
      find-append announced_key t.id xs e,
      eq_iff t.id e.topic_id,
      eq_iff e.topic_id t.id,
    ),
    Apart-append e xs ts (ground (arith, h)) a.1,
  )

  put_topics-map :
      (known : List DiscoveredGroup) (ts : List Topic) (xs : List AnnouncementGroup)
      → IsKeyed topic_key ts
      → Apart xs ts
      → IsKeyed announced_key xs
      → (put_topics files known ts xs ≡ xs ++ map (of_topic files known) ts)
        × IsKeyed announced_key (put_topics files known ts xs)
  unfolding put_topics
  put_topics-map known [] xs k a v = (sym (append-nil xs), v)
  put_topics-map known (t ∷ ts) xs k a v =
      let e = of_topic files known t in
      let rest =
        put_topics-map known ts (xs ++ e ∷ []) k.1 (Apart-append e xs ts k.0 a.1)
          (append-IsKeyed announced_key e xs a.0 v) in
      rw (put-new e xs a.0) (rest.0 ∙ append_assoc xs (e ∷ []) _, rest.1)

  Apart-nil : (ts : List Topic) → Apart [] ts
  unfolding find
  Apart-nil [] = tt
  Apart-nil (t ∷ ts) = (refl, Apart-nil ts)

  is_some-find-map :
      (known : List DiscoveredGroup) (j : String) (ts : List Topic)
      → is_some (find announced_key j (map (of_topic files known) ts))
        ≡ is_some (find topic_key j ts)
  unfolding find
  is_some-find-map known j [] = refl
  is_some-find-map known j (t ∷ ts) = ground (arith, is_some-find-map known j ts)

  -- The group is none of the joined topics.
  abbrev pub is_unjoined : List Topic → DiscoveredGroup → Bool
  is_unjoined joined g = not (is_some (find topic_key g.topic_name joined))

  select-is_new :
      (all : List DiscoveredGroup) (joined : List Topic) (known : List DiscoveredGroup)
      → select (is_new (map (of_topic files all) joined)) known ≡ select (is_unjoined joined) known
  unfolding select
  select-is_new all joined [] = refl
  select-is_new all joined (g ∷ known) =
      ground (arith, select-is_new all joined known, is_some-find-map all g.topic_name joined)

  -- A broadcast names at most fifty groups and none twice: the first fifty of the joined topics, in
  -- the order of the query, followed by all the groups that were only heard of, in theirs. Neither
  -- query gives a key twice.
  pub announced_groups_lem :
      (joined : List Topic) (known : List DiscoveredGroup)
      → IsKeyed topic_key joined
      → IsKeyed discovered_key known
      → (length (announced_groups files joined known) ≤ 50)
        × IsKeyed announced_key (announced_groups files joined known)
        × (announced_groups files joined known
            ≡ take 50 (
                map (of_topic files known) joined
                ++ map (of_discovered files) (select (is_unjoined joined) known)))
  unfolding announced_groups
  announced_groups_lem joined known k k' =
      let first = put_topics-map known joined [] k (Apart-nil joined) tt in
      let all = put_discovered-Grown known (put_topics files known joined []) first.1 k' in
      (
        length-take 50 _,
        take-IsKeyed 50 _ all.keyed,
        ap (take 50) (
            all.same
            ∙ ap (λ xs. xs ++ map (of_discovered files) (select (is_new xs) known)) first.0
            ∙ ap (λ gs. map (of_topic files known) joined ++ map (of_discovered files) gs)
                (select-is_new known joined known)),
      )
