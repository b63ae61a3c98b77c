-- ===== src/Tests/Components.antt =====
-- The connected-components distribution at concrete inputs.
use sonic_chain.Base.{
  ℕ, zero, suc, ◌≡◌, ◌≢◌, refl, ap, sym, some, List, [], ◌∷◌, inl, inr, subst, returned, get_elem?,
  some-eq-some, arith, bytes_eq, nat_eq,
}
use sonic_chain.Base.HashMap
use sonic_chain.State
use sonic_chain.State.{unsafe_insert}
use sonic_chain.Balances.{transfer}
use sonic_chain.Call.{body}
use sonic_chain.Call.Discipline.{body-IsDisciplined, body-ChecksFirst}
use sonic_chain.Runtime.{success}
use sonic_chain.Runtime.Concurrent
use sonic_chain.Runtime.Sequential
use sonic_chain.Runtime.Sequential.{RuntimeState}
use sonic_chain.Runtime.Footprint.{Within, Agree}
use sonic_chain.Runtime.Owned.{OwnedIn, executed-Agree}
use sonic_chain.Runtime.Storage.{key_for}
use sonic_chain.Executor.Types
use sonic_chain.Executor.Types.{Transaction}
use sonic_chain.Executor.Components.{Rc, Heap, new_tx, new_key, Loop, ended, crashed, traverse}
use sonic_chain.Executor.Components.Graph.{empty, build, components_from}
use sonic_chain.Executor.Components.Graph.Shared.{ByKeys, components-ByKeys}
use sonic_chain.Executor.Components.Search.{In, Present}
use sonic_chain.Executor.Components.Search.Ends.{IsLinked}
use sonic_chain.Executor.Components.Search.Fuel.{components_from-Ends}
use sonic_chain.Executor.Components.Assign.{distribute}
use sonic_chain.Executor.Components.Assign.Tags.{DistinctIds}
use sonic_chain.Executor.Components.Distribution.Places.{Distributes}
use sonic_chain.Executor.Components.Distribution.{
  keys_of_call, distribute-Distributes, distribute-Panics,
}
use sonic_chain.Tests.Fixtures.{codecs, genesis, alice, alice_pays, tx_alice, tx_carol}

-- Alice's second transfer.
abbrev tx_again : Transaction
tx_again = Types.new 3 alice_pays alice []

pool_distinct : DistinctIds (tx_alice ∷ tx_carol ∷ tx_again ∷ [])
pool_distinct = (first, (second, (third, tt)))
  where
    first : (n : ℕ) (u : Transaction) → get_elem? (tx_carol ∷ tx_again ∷ []) n ≡ some u → u.id ≢ 1
    first zero u e q = omega (arith, ap (λ t. t.id) (some-eq-some e), q)
    first (suc zero) u e q = omega (arith, ap (λ t. t.id) (some-eq-some e), q)
    first (suc (suc n)) u e q = cc

    second : (n : ℕ) (u : Transaction) → get_elem? (tx_again ∷ []) n ≡ some u → u.id ≢ 2
    second zero u e q = omega (arith, ap (λ t. t.id) (some-eq-some e), q)
    second (suc n) u e q = cc

    third : (n : ℕ) (u : Transaction) → get_elem? [] n ≡ some u → u.id ≢ 3
    third n u e q = cc

distribute-Distributes_example :
    (fuel : ℕ) × (tagged : List Transaction) × (distribute codecs fuel
        (1 ∷ 2 ∷ [])
        (tx_alice ∷ tx_carol ∷ tx_again ∷ [])
      ≡ ended tagged)
    × Distributes (keys_of_call codecs) (1 ∷ 2 ∷ []) (tx_alice ∷ tx_carol ∷ tx_again ∷ []) tagged
distribute-Distributes_example =
    distribute-Distributes codecs 1 (2 ∷ []) tx_alice (tx_carol ∷ tx_again ∷ []) pool_distinct

distribute-Panics_example :
    ((fuel : ℕ) (ids : List ℕ) → distribute codecs fuel ids [] ≡ crashed)
    × ((t : Transaction) (pool : List Transaction)
        → (fuel : ℕ) × (distribute codecs fuel [] (t ∷ pool) ≡ crashed))
distribute-Panics_example = distribute-Panics codecs

components-ByKeys_example :
    (fuel : ℕ) × (heap : Heap) × (components : List (List Rc)) × (components_from fuel 0
        (build (keys_of_call codecs) (tx_alice ∷ tx_carol ∷ tx_again ∷ []) empty).0
        (build (keys_of_call codecs) (tx_alice ∷ tx_carol ∷ tx_again ∷ []) empty).1.heap
      ≡ ended (heap, components))
    × ByKeys
        (keys_of_call codecs)
        (tx_alice ∷ tx_carol ∷ tx_again ∷ [])
        (build (keys_of_call codecs) (tx_alice ∷ tx_carol ∷ tx_again ∷ []) empty).0
        heap
        components
components-ByKeys_example =
    components-ByKeys (keys_of_call codecs) (tx_alice ∷ tx_carol ∷ tx_again ∷ [])

-- Two transactions with the same two keys, as in `traverse_works`.
abbrev two_keys : Heap
two_keys =
    new_tx 1 (2 ∷ 3 ∷ [])
    ∷ new_tx 2 (2 ∷ 3 ∷ [])
    ∷ new_key (1 ∷ 1 ∷ 1 ∷ []) (0 ∷ 1 ∷ [])
    ∷ new_key (2 ∷ 2 ∷ 2 ∷ []) (0 ∷ 1 ∷ [])
    ∷ []

first_two : (x : Rc) → In x (0 ∷ 1 ∷ []) → Present two_keys x
first_two x h = elim h [
  | inl q ↦ subst (Present two_keys) (sym q) (2 ∷ 3 ∷ [], refl)
  | inr (inl q) ↦ subst (Present two_keys) (sym q) (2 ∷ 3 ∷ [], refl)
  | inr (inr f) ↦ absurd f
]

last_two : (x : Rc) → In x (2 ∷ 3 ∷ []) → Present two_keys x
last_two x h = elim h [
  | inl q ↦ subst (Present two_keys) (sym q) (0 ∷ 1 ∷ [], refl)
  | inr (inl q) ↦ subst (Present two_keys) (sym q) (0 ∷ 1 ∷ [], refl)
  | inr (inr f) ↦ absurd f
]

two_keys-IsLinked : IsLinked two_keys
two_keys-IsLinked zero x (rs, e, h) = last_two x (subst (In x) (sym (some-eq-some e)) h)
two_keys-IsLinked (suc zero) x (rs, e, h) = last_two x (subst (In x) (sym (some-eq-some e)) h)
two_keys-IsLinked (suc (suc zero)) x (rs, e, h) =
    first_two x (subst (In x) (sym (some-eq-some e)) h)
two_keys-IsLinked (suc (suc (suc zero))) x (rs, e, h) =
    first_two x (subst (In x) (sym (some-eq-some e)) h)
two_keys-IsLinked (suc (suc (suc (suc r)))) x (rs, e, h) = cc

components_from-Ends_example :
    (fuel : ℕ) × (heap : Heap) × (components : List (List Rc)) × (components_from fuel 0
        (0 ∷ 1 ∷ [])
        two_keys
      ≡ ended (heap, components))
components_from-Ends_example =
    components_from-Ends (0 ∷ 1 ∷ []) 0 two_keys two_keys-IsLinked (λ r i. first_two r i)

abbrev members_of : Loop (Heap × List Rc) → List Rc
members_of (ended (heap, component)) = component
members_of _ = []

two_keys_members : members_of (traverse 20 2 1 two_keys) ≡ 0 ∷ 1 ∷ []
unfolding traverse
two_keys_members = refl

abbrev after : RuntimeState
after = (Concurrent.dispatch 1 (body codecs alice_pays alice) genesis).1

alice_executes : (Concurrent.dispatch 1 (body codecs alice_pays alice) genesis).0 ≡ returned success
unfolding key_for Concurrent.dispatch body transfer Concurrent.read HashMap.get State.read
    Concurrent.write HashMap.insert unsafe_insert
alice_executes = refl

executed-Agree_example :
    Within (OwnedIn 1 after) (body codecs alice_pays alice) genesis
    × ((Sequential.dispatch 1 (body codecs alice_pays alice) genesis).0 ≡ returned success)
    × Agree (OwnedIn 1 after) after (Sequential.dispatch 1 (body codecs alice_pays alice) genesis).1
executed-Agree_example =
    executed-Agree 1 (body codecs alice_pays alice) genesis success
      (body-IsDisciplined codecs alice_pays alice) (body-ChecksFirst codecs alice_pays alice)
      alice_executes (OwnedIn 1 after) genesis (λ k o. o) (λ k o. refl)
