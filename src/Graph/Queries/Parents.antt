-- ===== src/Graph/Queries/Parents.antt =====
-- core/crates/client-evm/src/kernel/blocks_graph.rs: `missing_parents`, the headers to fetch.
use armchair_analyst.Prelude.{
  nat_eq, ◌≤◌, ◌<◌, ◌≡◌, ◌∙◌, ◌↔◌, refl, sym, subst, true, false, not, ◌&&◌, ◌||◌, none, some, List,
  [], ◌∷◌, ◌==◌, Map, UniqueKeys, lookup, contains_key, contains, arith, Bool-cases, inl, inr,
  nat_beq_iff,
}
use armchair_analyst.Pools.Keys.{BlockHash}
use armchair_analyst.Graph.Types.{PendingNode, Node, connected, pending, BlocksGraph}
use armchair_analyst.Graph.Queries.{
  dangling, insert_hash, sort_hashes, dedup_after, dedup, missing_parents,
}

abbrev pub AtLeast : BlockHash → List BlockHash → Type 0
AtLeast x [] = Unit {0}
AtLeast x (y ∷ ys) = x ≤ y

abbrev pub Ascending : List BlockHash → Type 0
Ascending [] = Unit {0}
Ascending (x ∷ xs) = AtLeast x xs × Ascending xs

abbrev pub Over : BlockHash → List BlockHash → Type 0
Over x [] = Unit {0}
Over x (y ∷ ys) = x < y

abbrev pub StrictlyAscending : List BlockHash → Type 0
StrictlyAscending [] = Unit {0}
StrictlyAscending (x ∷ xs) = Over x xs × StrictlyAscending xs

insert_hash-AtLeast :
    (a h : BlockHash) (xs : List BlockHash) → AtLeast a xs → a ≤ h → AtLeast a (insert_hash h xs)
unfolding insert_hash
insert_hash-AtLeast a h [] l s = s
insert_hash-AtLeast a h (x ∷ xs) l s = ground arith

insert_hash-Ascending :
    (h : BlockHash) (xs : List BlockHash) → Ascending xs → Ascending (insert_hash h xs)
unfolding insert_hash
insert_hash-Ascending h [] a = (tt, tt)
insert_hash-Ascending h (x ∷ xs) a =
    ground (arith, insert_hash-Ascending h xs a.1, insert_hash-AtLeast x h xs a.0)

sort_hashes-Ascending : (xs : List BlockHash) → Ascending (sort_hashes xs)
unfolding sort_hashes
sort_hashes-Ascending [] = tt
sort_hashes-Ascending (x ∷ xs) = insert_hash-Ascending x (sort_hashes xs) (sort_hashes-Ascending xs)

dedup_after-StrictlyAscending :
    (last : BlockHash) (xs : List BlockHash)
    → AtLeast last xs
    → Ascending xs
    → Over last (dedup_after last xs) × StrictlyAscending (dedup_after last xs)
unfolding dedup_after
dedup_after-StrictlyAscending last [] l a = (tt, tt)
dedup_after-StrictlyAscending last (x ∷ xs) l a = elim (Bool-cases (x == last)) [
  | inl same ↦
      let e = (nat_beq_iff x last).0 same in
      rw same (dedup_after-StrictlyAscending last xs (subst (λ y. AtLeast y xs) e a.0) a.1)
  | inr other ↦
      rw other
        (ground (arith, other, l, nat_beq_iff x last), dedup_after-StrictlyAscending x xs a.0 a.1)
]

dedup-StrictlyAscending : (xs : List BlockHash) → Ascending xs → StrictlyAscending (dedup xs)
unfolding dedup
dedup-StrictlyAscending [] a = tt
dedup-StrictlyAscending (x ∷ xs) a = dedup_after-StrictlyAscending x xs a.0 a.1

contains-insert_hash :
    (h x : BlockHash) (xs : List BlockHash)
    → contains h (insert_hash x xs) ≡ (x == h || contains h xs)
unfolding insert_hash
contains-insert_hash h x [] = refl
contains-insert_hash h x (y ∷ ys) = ground (arith, contains-insert_hash h x ys)

contains-sort_hashes :
    (h : BlockHash) (xs : List BlockHash) → contains h (sort_hashes xs) ≡ contains h xs
unfolding sort_hashes
contains-sort_hashes h [] = refl
contains-sort_hashes h (x ∷ xs) =
    ground (arith, contains-insert_hash h x (sort_hashes xs), contains-sort_hashes h xs)

contains-dedup_after :
    (h last : BlockHash) (xs : List BlockHash)
    → (last == h || contains h (dedup_after last xs)) ≡ (last == h || contains h xs)
unfolding dedup_after
contains-dedup_after h last [] = refl
contains-dedup_after h last (x ∷ xs) =
    ground (arith, contains-dedup_after h last xs, contains-dedup_after h x xs, nat_beq_iff x last)

contains-dedup : (h : BlockHash) (xs : List BlockHash) → contains h (dedup xs) ≡ contains h xs
unfolding dedup
contains-dedup h [] = refl
contains-dedup h (x ∷ xs) = contains-dedup_after h x xs

-- A block waits for `hash`, which is neither the anchor nor in the graph.
pub record Awaited (top : BlockHash) (nodes rest : Map BlockHash Node) (hash : BlockHash)
    : Type 0 where
  pub child : BlockHash
  pub node : PendingNode
  pub waits : lookup child rest ≡ some (pending node)
  pub names : node.parent ≡ hash
  pub below : (hash == top) ≡ false
  pub absent : contains_key hash nodes ≡ false

module _ (top : BlockHash) (nodes : Map BlockHash Node) (hash : BlockHash) where
  later :
      (k : BlockHash) (v : Node) (rest : Map BlockHash Node)
      → lookup k rest ≡ none
      → Awaited top nodes rest hash
      → Awaited top nodes ((k, v) ∷ rest) hash
  unfolding lookup
  later k v rest fresh a = record {
    child = a.child;
    node = a.node;
    waits = ground (arith, a.waits, fresh, nat_beq_iff k a.child);
    names = a.names;
    below = a.below;
    absent = a.absent;
  }

  dangling-Awaited :
      (rest : Map BlockHash Node)
      → UniqueKeys rest
      → contains hash (dangling top nodes rest) ≡ true
      → Awaited top nodes rest hash
  unfolding dangling lookup
  dangling-Awaited [] u h = absurd (cc)
  dangling-Awaited ((k, connected n) ∷ rest) u h =
      later k (connected n) rest u.0 (dangling-Awaited rest u.1 h)
  dangling-Awaited ((k, pending n) ∷ rest) u h =
      elim (Bool-cases
        (not (n.parent == top) && not (contains_key n.parent nodes) && n.parent == hash)) [
          | inl named ↦
              let same = (nat_beq_iff n.parent hash).0 (ground (arith, named)) in
              record {
                child = k;
                node = n;
                waits = ground (arith, nat_beq_iff k k);
                names = same;
                below = subst (λ x. (x == top) ≡ false) same (ground (arith, named));
                absent = subst (λ x. contains_key x nodes ≡ false) same (ground (arith, named));
              }
          | inr other ↦
              later k (pending n) rest u.0 (dangling-Awaited rest u.1 (ground (arith, h, other)))
        ]

  earlier :
      {k : BlockHash} {v : Node} (rest : Map BlockHash Node)
      (a : Awaited top nodes ((k, v) ∷ rest) hash)
      → (k == a.child) ≡ false
      → Awaited top nodes rest hash
  unfolding lookup
  earlier rest a there = record {
    child = a.child;
    node = a.node;
    waits = ground (arith, a.waits, there);
    names = a.names;
    below = a.below;
    absent = a.absent;
  }

  contains-dangling :
      (rest : Map BlockHash Node)
      → Awaited top nodes rest hash
      → contains hash (dangling top nodes rest) ≡ true
  unfolding dangling lookup
  contains-dangling [] a = absurd (ground (arith, a.waits))
  contains-dangling ((k, connected n) ∷ rest) a = elim (Bool-cases (k == a.child)) [
    | inl here ↦ absurd (ground (arith, here, a.waits))
    | inr there ↦ contains-dangling rest (earlier rest a there)
  ]
  contains-dangling ((k, pending n) ∷ rest) a = elim (Bool-cases (k == a.child)) [
    | inl here ↦
        let same : n.parent ≡ hash = ground (arith, here, a.waits, a.names) in
        ground (arith, same, a.below, a.absent, nat_beq_iff n.parent hash)
    | inr there ↦ ground (arith, contains-dangling rest (earlier rest a there))
  ]

-- The missing parents come out in strictly ascending order, and a hash is among them exactly when some
-- waiting block names it as its parent and it is neither the anchor nor in the graph.
pub missing_parents-Awaited :
    (g : BlocksGraph)
    → UniqueKeys g.nodes
    → StrictlyAscending (missing_parents g)
      × ((hash : BlockHash)
          → (contains hash (missing_parents g) ≡ true) ↔ Awaited g.anchor.hash g.nodes g.nodes hash)
unfolding missing_parents
missing_parents-Awaited g u =
    let gaps = dangling g.anchor.hash g.nodes g.nodes in
    (
      dedup-StrictlyAscending (sort_hashes gaps) (sort_hashes-Ascending gaps),
      λ hash.
          let same = contains-dedup hash (sort_hashes gaps) ∙ contains-sort_hashes hash gaps in
          (
            λ h. dangling-Awaited g.anchor.hash g.nodes hash g.nodes u (sym same ∙ h),
            λ a. same ∙ contains-dangling g.anchor.hash g.nodes hash g.nodes a,
          ),
    )
