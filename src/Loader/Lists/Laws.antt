-- ===== src/Loader/Lists/Laws.antt =====
-- The linked lists against lists.
use mathlib.Core.Path.{subst}
use rv32isam.Base.{
  ℕ, ◌≡◌, ◌≢◌, refl, sym, ◌∙◌, ap, arith, List, [], ◌∷◌, ◌++◌, Option, none, some, true, false,
  ◌==◌,
}
use rv32isam.Base.Lists.{length, All, none_left, and_all}
use rv32isam.Loader.Lists.{Node, Nodes, set_node, Store, link, freed, free_nodes}

-- The nodes from `p` on, with their addresses, which differ.
pub data Chain {ℓ} {A : Type ℓ} (nodes : Nodes A) : Option ℕ → List (ℕ × A) → Type ℓ where
  ended : Chain nodes none []
  linked :
      (a : ℕ) (v : A) {next : Option ℕ} {rest : List (ℕ × A)}
      → nodes a ≡ some record { next = next; value = v }
      → All (λ (y : ℕ × A). a ≢ y.0) rest
      → Chain nodes next rest
      → Chain nodes (some a) ((a, v) ∷ rest)

abbrev pub last_address {ℓ} : {A : Type ℓ} → ℕ × A → List (ℕ × A) → ℕ
last_address x [] = x.0
last_address x (y ∷ rest) = last_address y rest

abbrev pub tail_of {ℓ} : {A : Type ℓ} → List (ℕ × A) → Option ℕ
tail_of [] = none
tail_of (x ∷ rest) = some (last_address x rest)

-- The list that is stored.
pub record Represents {ℓ} {A : Type ℓ} (store : Store A) (l : List (ℕ × A)) : Type ℓ where
  pub chain : Chain store.nodes store.list.head l
  pub tail : store.list.tail ≡ tail_of l

last_address-differs {ℓ} :
    {A : Type ℓ} (a : ℕ) (x : ℕ × A) (rest : List (ℕ × A))
    → All (λ (y : ℕ × A). a ≢ y.0) (x ∷ rest)
    → a ≢ last_address x rest
last_address-differs a x [] (and_all p none_left) = p
last_address-differs a x (y ∷ rest) (and_all p ps) = last_address-differs a y rest ps

set_node-other {ℓ} :
    {A : Type ℓ} (nodes : Nodes A) (p : ℕ) (n : Option (Node A)) (a : ℕ)
    → p ≢ a
    → set_node nodes p n a ≡ nodes a
set_node-other nodes p n a ne = let e : (a == p) ≡ false = ground (arith, ne) in rw e refl

set_node-same {ℓ} :
    {A : Type ℓ} (nodes : Nodes A) (p : ℕ) (n : Option (Node A)) → set_node nodes p n p ≡ n
set_node-same nodes p n = let e : (p == p) ≡ true = ground arith in rw e refl

Chain-kept {ℓ} :
    {A : Type ℓ} {nodes : Nodes A} {p : Option ℕ} {l : List (ℕ × A)} (q : ℕ) (n : Option (Node A))
    → Chain nodes p l
    → All (λ (y : ℕ × A). q ≢ y.0) l
    → Chain (set_node nodes q n) p l
Chain-kept q n ended none_left = ended
Chain-kept {nodes = nodes} q n (linked a v e distinct rest) (and_all ne others) =
    linked a v (set_node-other nodes q n a ne ∙ e) distinct (Chain-kept q n rest others)

All-split {ℓ} :
    {A : Type ℓ} {P : A → Type 0} {x : A} {xs : List A} → All P (x ∷ xs) → P x × All P xs
All-split (and_all p ps) = (p, ps)

All-append {ℓ} : {A : Type ℓ} {P : A → Type 0} {l m : List A} → All P l → All P m → All P (l ++ m)
All-append none_left q = q
All-append (and_all p ps) q = and_all p (All-append ps q)

-- The loop frees the nodes of the list, in as many turns as there are, and nothing else, and reads none
-- after it is freed.
free_nodes-Chain {ℓ} :
    {A : Type ℓ} (l : List (ℕ × A)) {nodes : Nodes A} {p : Option ℕ}
    → Chain nodes p l
    → (nodes' : Nodes A) × (free_nodes (length l) p nodes ≡ freed nodes')
      × All (λ (y : ℕ × A). nodes' y.0 ≡ none) l
      × ((a : ℕ) → All (λ (y : ℕ × A). a ≢ y.0) l → nodes' a ≡ nodes a)
unfolding free_nodes
free_nodes-Chain [] {nodes = nodes} ended = (nodes, refl, none_left, λ a h. refl)
free_nodes-Chain (x ∷ rest) {nodes = nodes} (linked a v e distinct chain) =
    let (nodes', r, gone, others) = free_nodes-Chain rest (Chain-kept a none chain distinct) in
    (
      nodes',
      rw (free_nodes, e) r,
      and_all (others a distinct ∙ set_node-same nodes a none) gone,
      λ b h.
          others b (All-split h).1
          ∙ set_node-other nodes a none b (λ same. (All-split h).0 (sym same)),
    )

-- The nodes after another one is linked behind the last.
abbrev extended {ℓ} : {A : Type ℓ} → Nodes A → ℕ → A → ℕ → Node A → Nodes A
extended nodes node value tail last =
    set_node (set_node nodes node (some record { next = none; value = value })) tail
      (some (record last { next = some node }))

extend-Chain {ℓ} :
    {A : Type ℓ} {nodes : Nodes A} {p : Option ℕ} (x : ℕ × A) (rest : List (ℕ × A)) (node : ℕ)
    (value : A)
    → Chain nodes p (x ∷ rest)
    → All (λ (y : ℕ × A). node ≢ y.0) (x ∷ rest)
    → (last : Node A) × (nodes (last_address x rest) ≡ some last)
      × Chain
          (extended nodes node value (last_address x rest) last)
          p
          ((x ∷ rest) ++ (node, value) ∷ [])
extend-Chain {nodes = nodes} x [] node value (linked a v e distinct ended) fresh =
    let ne = (All-split fresh).0 in
    let last : Node _ = record { next = none; value = v } in
    (
      last,
      e,
      linked a v
          (set_node-same (set_node nodes node (some record { next = none; value = value })) a
            (some record { next = some node; value = v }))
          (and_all (λ same. ne (sym same)) none_left)
          (linked node value
            (set_node-other (set_node nodes node (some record { next = none; value = value })) a
                (some record { next = some node; value = v }) node (λ same. ne (sym same))
              ∙ set_node-same nodes node (some record { next = none; value = value }))
            none_left ended),
    )
extend-Chain {nodes = nodes} x (y ∷ rest) node value (linked a v e distinct chain) fresh =
    let (last, here, more) = extend-Chain y rest node value chain (All-split fresh).1 in
    (
      last,
      here,
      linked a v
          (set_node-other (set_node nodes node (some record { next = none; value = value }))
              (last_address y rest) (some (record last { next = some node })) a
              (λ same. last_address-differs a y rest distinct (sym same))
            ∙ set_node-other nodes node (some record { next = none; value = value }) a
                (All-split fresh).0
            ∙ e)
          (All-append distinct (and_all (λ same. (All-split fresh).0 (sym same)) none_left)) more,
    )

abbrev IsNone {ℓ} : {A : Type ℓ} → Option A → Type 0
IsNone none = Unit
IsNone (some a) = ⊥

Chain-fresh {ℓ} :
    {A : Type ℓ} {nodes : Nodes A} {p : Option ℕ} {l : List (ℕ × A)} {node : ℕ}
    → Chain nodes p l
    → nodes node ≡ none
    → All (λ (y : ℕ × A). node ≢ y.0) l
Chain-fresh ended free = none_left
Chain-fresh {nodes = nodes} (linked a v e distinct rest) free =
    and_all (λ same. subst IsNone (sym free ∙ ap nodes same ∙ e) tt) (Chain-fresh rest free)

last_address-append {ℓ} :
    {A : Type ℓ} (x : ℕ × A) (rest : List (ℕ × A)) (node : ℕ) (value : A)
    → last_address x (rest ++ (node, value) ∷ []) ≡ node
last_address-append x [] node value = refl
last_address-append x (y ∷ rest) node value = last_address-append y rest node value

-- A node linked to a list that represents `l` at an address that is not in use: the list then
-- represents `l` with it at the end, and no node that is freed is used.
pub link-Represents {ℓ} :
    {A : Type ℓ} (store : Store A) (l : List (ℕ × A)) (node : ℕ) (value : A)
    → Represents store l
    → store.nodes node ≡ none
    → (store' : Store A) × (link node value store ≡ some store')
      × Represents store' (l ++ (node, value) ∷ [])
unfolding link
link-Represents store [] node value r free = (
  record {
    nodes = set_node store.nodes node (some record { next = none; value = value });
    list = record { tail = some node; head = some node };
  },
  rw (link, r.tail) refl,
  record {
    chain =
        linked node value
          (set_node-same store.nodes node (some record { next = none; value = value })) none_left
          ended;
    tail = refl;
  },
)
link-Represents store (x ∷ rest) node value r free =
    let fresh = Chain-fresh r.chain free in
    let (last, here, more) = extend-Chain x rest node value r.chain fresh in
    let kept =
      set_node-other store.nodes node (some record { next = none; value = value })
        (last_address x rest) (last_address-differs node x rest fresh)
      ∙ here in
    (
      record {
        nodes = extended store.nodes node value (last_address x rest) last;
        list = record store.list { tail = some node };
      },
      rw (link, r.tail, kept) refl,
      record { chain = more; tail = ap some (sym (last_address-append x rest node value)) },
    )

-- The loop of `destroy_segment_list` and `destroy_page_list` on a list that represents `l`: in as many
-- turns as `l` is long it frees its nodes, leaves all others, and reads none that is freed.
pub free_nodes-Represents {ℓ} :
    {A : Type ℓ} (store : Store A) (l : List (ℕ × A))
    → Represents store l
    → (nodes' : Nodes A) × (free_nodes (length l) store.list.head store.nodes ≡ freed nodes')
      × All (λ (y : ℕ × A). nodes' y.0 ≡ none) l
      × ((a : ℕ) → All (λ (y : ℕ × A). a ≢ y.0) l → nodes' a ≡ store.nodes a)
free_nodes-Represents store l r = free_nodes-Chain l r.chain
