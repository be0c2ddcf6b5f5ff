-- ===== src/Cgraph.antt =====
-- cgraph/src/lib.rs: the graph of a cluster's nodes, which keeps for each pair of nodes the speed
-- that was measured or extrapolated between them.
--
-- The set of nodes is the standard library's `HashSet`: a list here, in whatever order it is
-- iterated. Two nodes are equal if their indices are.
pub mod Cells
pub mod Membership
pub mod Arrival
pub mod Faster
pub mod Ways
pub mod Speeds
pub mod Missing
pub mod Results
pub mod Layout
use package.kollaps.Prelude.{
  ℕ, zero, suc, ◌+◌, ◌-◌, Bool, true, false, not, ◌&&◌, ◌||◌, Option, none, some, List, [], ◌∷◌,
  map, ltb, leb, ◌==◌, if◌then◌else◌, length, min, collect, ◌%◌, ◌^◌,
}
use package.kollaps.Matrix.{SymMatrix, new_fn, size, index, index_mut, grow_fn, remove_id}

-- is_limited, is_directly_tested, speed
pub record TestData : Type 0 where
  pub limited : Bool
  pub directly_tested : Bool
  pub speed : ℕ

pub record Node (I : Type 0) : Type 0 where
  pub index_of : ℕ
  pub node_speed : ℕ
  pub info : I

pub record CGraph (I : Type 0) : Type 0 where
  pub c_graph : SymMatrix TestData
  pub nodes : List (Node I)

-- The kinds of error that the functions of the cluster create, and a panic.
pub data ErrorKind : Type 0 where
  already_exists no_resource not_found invalid_data inconsistent_state perf_test_failed panic :
      ErrorKind

pub data Result {ℓ} (A : Type ℓ) : Type ℓ where
  ok : A → Result A
  err : ErrorKind → Result A

infixl 5 ◌>>=◌ ◌>>◌
abbrev pub ◌>>=◌ {ℓ κ} : {A : Type ℓ} {B : Type κ} → Result A → (A → Result B) → Result B
ok a >>= f = f a
err e >>= f = err e

abbrev pub ◌>>◌ {ℓ κ} : {A : Type ℓ} {B : Type κ} → Result A → Result B → Result B
m >> k = m >>= λ _. k

-- `ok_or`, and with `panic` an index or an `unwrap`.
abbrev pub ok_or {ℓ} : {A : Type ℓ} → Option A → ErrorKind → Result A
ok_or none e = err e
ok_or (some a) e = ok a

-- `unwrap`: any error is a panic.
unfoldable pub unwrap {ℓ} : {A : Type ℓ} → Result A → Result A
unwrap (ok a) = ok a
unwrap (err e) = err panic

-- `usize::MAX`
abbrev pub usize_max : ℕ
usize_max = 18446744073709551615

-- `TestData::default`
unfoldable pub default_data : ℕ → ℕ → TestData
default_data _ _ = record { limited = true; directly_tested = false; speed = 0 }

-- `for i in start..start + count { body }`
unfoldable pub for_range {ℓ} : {S : Type ℓ} → ℕ → ℕ → (ℕ → S → Result S) → S → Result S
for_range zero start body s = ok s
for_range (suc count) start body s = body start s >>= for_range count (start + 1) body

-- A write to one field of a cell, `self.c_graph[(r, c)].set_…`.
unfoldable pub update :
    SymMatrix TestData → ℕ → ℕ → (TestData → TestData) → Result (SymMatrix TestData)
update m r c f = do d ← ok_or (index m r c) panic; ok_or (index_mut m r c (f d)) panic

unfoldable pub read_speed : Option TestData → Option ℕ
read_speed none = none
read_speed (some d) = some (d.speed % 2 ^ 32)

unfoldable pub info_of : {I : Type 0} → Result (Node I) → Option I
info_of (ok k) = some k.info
info_of (err _) = none

module _ {I : Type 0} where
  unfoldable pub new : Result (CGraph I)
  unfolding default_data
  new = do
    m ← ok_or (new_fn 0 (λ r c. some (default_data r c))) panic
    ok (record { c_graph = m; nodes = [] })

  -- `HashSet::contains`, `insert` and `remove`, by the index.
  unfoldable pub contains : List (Node I) → ℕ → Bool
  contains [] i = false
  contains (k ∷ ks) i = k.index_of == i || contains ks i

  unfoldable pub remove_node : List (Node I) → ℕ → List (Node I)
  remove_node [] i = []
  remove_node (k ∷ ks) i = if k.index_of == i then ks else k ∷ remove_node ks i

  -- `collect` into a set: of equal nodes the first stays.
  unfoldable pub collect_nodes : List (Node I) → List (Node I)
  unfolding remove_node
  collect_nodes [] = []
  collect_nodes (k ∷ ks) = k ∷ remove_node (collect_nodes ks) k.index_of

  -- The first node that the predicate accepts.
  unfoldable pub find : (Node I → Bool) → List (Node I) → Option (Node I)
  find p [] = none
  find p (k ∷ ks) = if p k then some k else find p ks

  unfoldable pub with_info : (I → I) → Node I → Node I
  with_info f k = record k { info = f k.info }

  unfoldable pub map_nodes : CGraph I → (I → I) → CGraph I
  unfolding collect_nodes with_info
  map_nodes g f = record g { nodes = collect_nodes (map (with_info f) g.nodes) }

  unfoldable pub graph_size : CGraph I → ℕ
  graph_size g = length g.nodes

  unfoldable pub add_node : (I → I → Bool) → CGraph I → ℕ → I → Result (Node I × CGraph I)
  unfolding find default_data contains update
  add_node same g speed info =
      let known = find (λ k. same k.info info) g.nodes in
      let fresh = (do
        grown ← ok_or (grow_fn g.c_graph 1 default_data) panic
        let i = size grown - 1
        m ← update grown i i (λ d. record d { speed = usize_max })
        let node : Node I = record { index_of = i; node_speed = speed; info = info }
        if contains g.nodes i
            then err already_exists
            else ok (node, record { c_graph = m; nodes = node ∷ g.nodes })) in
      elim known [ some k ↦ ok (k, g) | none ↦ fresh ]

  -- All indices above the removed one are reduced by one.
  unfoldable pub shift : ℕ → Node I → Node I
  shift removed k = if ltb removed k.index_of then record k { index_of = k.index_of - 1 } else k

  unfoldable pub remove_one_by : CGraph I → (Node I → Bool) → Result (CGraph I)
  unfolding find contains remove_node collect_nodes shift
  remove_one_by g predicate = do
    node ← ok_or (find predicate g.nodes) no_resource
    let i = node.index_of
    let shrink = (do
      m ← ok_or (remove_id g.c_graph i) panic
      let kept = collect_nodes (map (shift i) (remove_node g.nodes i))
      if size m == length kept
          then ok (record { c_graph = m; nodes = kept })
          else err inconsistent_state)
    if contains g.nodes i then shrink else err not_found

  -- The least speed of the nodes with the index `i` or `j`.
  unfoldable pub min_speed : List (Node I) → ℕ → ℕ → Option ℕ
  min_speed [] i j = none
  min_speed (k ∷ ks) i j =
      let rest = min_speed ks i j in
      if k.index_of == i || k.index_of == j
      then elim rest [ none ↦ some k.node_speed | some s ↦ some (min k.node_speed s) ]
      else rest

  -- The body of the three loops of `update_speeds`.
  unfoldable pub transit :
      List (Node I) → ℕ → ℕ → ℕ → SymMatrix TestData → Result (SymMatrix TestData)
  unfolding min_speed update
  transit nodes i j k m = do
    ik ← ok_or (index m i k) panic
    kj ← ok_or (index m k j) panic
    ij ← ok_or (index m i j) panic
    let through = min ik.speed kj.speed
    let raise = (do
      faster ← update m i j (λ d. record d { speed = through })
      least ← ok_or (min_speed nodes i j) no_resource
      if least == through then update faster i j (λ d. record d { limited = false }) else ok faster)
    if ltb ij.speed through then raise else ok m

  unfoldable pub update_speeds : List (Node I) → SymMatrix TestData → Result (SymMatrix TestData)
  unfolding for_range transit
  update_speeds nodes m =
      for_range (size m) 0
        (λ i. for_range (size m) 0 (λ j. for_range (size m) 0 (λ k. transit nodes i j k))) m

  unfoldable pub add_link_direct_test : CGraph I → Node I → Node I → ℕ → Result (Bool × CGraph I)
  unfolding contains update update_speeds
  add_link_direct_test g from to speed =
      let i = from.index_of in
      let j = to.index_of in
      let enter = (do
        open_link ← update g.c_graph i j (λ d. record d { limited = false })
        before ← ok_or (index open_link i j) panic
        tested ← update open_link i j (λ d. record d { directly_tested = true })
        timed ← update tested i j (λ d. record d { speed = speed })
        m ← update_speeds g.nodes timed
        ok (ltb before.speed speed, record g { c_graph = m })) in
      if not (contains g.nodes i) || not (contains g.nodes j)
      then err not_found
      else if ltb (min from.node_speed to.node_speed) speed
      then err invalid_data
      else enter

  unfoldable pub node_by_index : CGraph I → ℕ → Result (Node I)
  unfolding find
  node_by_index g i = ok_or (find (λ k. k.index_of == i) g.nodes) panic

  -- The speeds as `u32`, and the information of the nodes by their indices.
  unfoldable pub speeds : CGraph I → Result (SymMatrix ℕ × List I)
  unfolding node_by_index graph_size read_speed info_of
  speeds g = do
    matrix ← ok_or (new_fn (graph_size g) (λ row col. read_speed (index g.c_graph row col))) panic
    infos ← ok_or (collect (size matrix) 0 (λ i. info_of (node_by_index g i))) panic
    ok (matrix, infos)
