-- ===== src/Loader/Lists.antt =====
-- loader.c: the linked lists of segments and of pages, whose nodes `malloc` gives and `free` takes. What
-- `malloc` returns is an argument, and so is what that memory holds.
pub mod Laws
use rv32isam.Base.{ℕ, zero, suc, Option, none, some, ◌==◌, if◌then◌else◌}
use rv32isam.Base.Word.{u8}
use rv32isam.Loader.{LoadableSegment, PageDescr}

-- `next` is NULL or an address.
pub record Node {ℓ} (A : Type ℓ) : Type ℓ where
  pub next : Option ℕ
  pub value : A

-- `struct loadable_segments_list`, `struct page_descr_list`.
pub record NodeList : Type 0 where
  pub tail : Option ℕ
  pub head : Option ℕ

-- A freed node is `none`.
abbrev pub Nodes {ℓ} : Type ℓ → Type ℓ
Nodes A = ℕ → Option (Node A)

abbrev pub set_node {ℓ} : {A : Type ℓ} → Nodes A → ℕ → Option (Node A) → Nodes A
set_node nodes p n a = if a == p then n else nodes a

pub record Store {ℓ} (A : Type ℓ) : Type ℓ where
  pub nodes : Nodes A
  pub list : NodeList

-- `tail->next = node; list->tail = node`, or the first node. `none` is a use of a node that is freed.
pub link {ℓ} : {A : Type ℓ} → ℕ → A → Store A → Option (Store A)
link node value store =
    let nodes = set_node store.nodes node (some record { next = none; value = value }) in
    elim store.list.tail [
      | none ↦ some record { nodes = nodes; list = record { tail = some node; head = some node } }
      | some tail ↦ elim (nodes tail) [
        | none ↦ none
        | some last ↦ some record {
          nodes = set_node nodes tail (some (record last { next = some node }));
          list = record store.list { tail = some node };
        }
      ]
    ]

-- `uninitialised` is what the new memory holds, for the caller to fill in.
abbrev pub add_segment :
    ℕ → LoadableSegment → Store LoadableSegment → Option (Store LoadableSegment)
add_segment segm uninitialised store = link segm uninitialised store

-- `size` is set later.
abbrev pub append_page : ℕ → ℕ → ℕ → ℕ → Store PageDescr → Option (Store PageDescr)
append_page page offset flags size store =
    link page record { offset_from_mmap = offset; flags = u8 flags; size = size } store

-- What a loop that frees nodes leaves; or the read of a freed node; or more turns to go.
pub data Freed {ℓ} (A : Type ℓ) : Type ℓ where
  freed : Nodes A → Freed A
  use_after_free : Freed A
  unfinished : Nodes A → Option ℕ → Freed A

-- The loop from the node `p` on, for a number of turns.
pub free_nodes {ℓ} : {A : Type ℓ} → ℕ → Option ℕ → Nodes A → Freed A
free_nodes turns none nodes = freed nodes
free_nodes zero (some p) nodes = unfinished nodes (some p)
free_nodes (suc turns) (some p) nodes = elim (nodes p) [
  | none ↦ use_after_free
  | some node ↦ free_nodes turns node.next (set_node nodes p none)
]

abbrev pub destroy_segment_list : ℕ → Store LoadableSegment → Freed LoadableSegment
destroy_segment_list turns store = free_nodes turns store.list.head store.nodes

abbrev pub destroy_page_list : ℕ → Store PageDescr → Freed PageDescr
destroy_page_list turns store = free_nodes turns store.list.head store.nodes
