-- ===== src/Tests/Storage.antt =====
-- The state, its races and the storage maps at concrete inputs.
use sonic_chain.Base.{
  ◌+◌, ok, some, returned, default, ◌≡◌, refl, [], ◌∷◌, ◌⊎◌, arith, if◌then◌else◌, ◌==◌, nat_eq,
  bytes_eq,
}
use sonic_chain.Primitives.{Key, value_default}
use sonic_chain.State
use sonic_chain.State.{StateType, StateValue, new, new_data, state_eq, unsafe_read_taint}
use sonic_chain.State.Interference.{Interferes, alone, read-Interferes, write-Interferes}
use sonic_chain.State.Races.{read-linearizable, write-linearizable, read-Settled, Settled}
use sonic_chain.Runtime.Sequential.{RuntimeState}
use sonic_chain.Runtime.View.{stored, read_value, read_after, read-write, key_for-injective}
use sonic_chain.Runtime.Frame.{state_value}
use sonic_chain.Runtime.Storage.{write, mutate, clear}
use sonic_chain.Runtime.{run}
use sonic_chain.Runtime.Sequential
use sonic_chain.Base.HashMap
use sonic_chain.Balances.Account.{AccountBalance}
use sonic_chain.State.Claims.{read-Claims, seen, claim}
use sonic_chain.Balances.Account.{account_balance_default}
use sonic_chain.Balances.{balance_of}
use sonic_chain.Tests.Fixtures.{balance_codec, genesis, alice, bob}

abbrev key : Key
key = 7 ∷ []

abbrev other_key : Key
other_key = 8 ∷ []

abbrev before : RuntimeState
before = (other_key, new_data (5 ∷ [])) ∷ []

-- Between the two locks of thread 1, thread 2 reads the same key.
abbrev gap : RuntimeState → RuntimeState
gap m = (State.read key 2 alone m).1

gap-Interferes : Interferes 1 before (gap before)
gap-Interferes = read-Interferes 1 2 (λ e. omega (arith, e)) key before

read-linearizable_example :
    (State.read key 1 gap before ≡ State.read key 1 alone before)
    ⊎ (State.read key 1 gap before ≡ State.read key 1 alone (gap before))
read-linearizable_example = read-linearizable key 1 gap before gap-Interferes

write-linearizable_example :
    (State.write key (9 ∷ []) 1 gap before ≡ State.write key (9 ∷ []) 1 alone before)
    ⊎ (State.write key (9 ∷ []) 1 gap before ≡ State.write key (9 ∷ []) 1 alone (gap before))
write-linearizable_example = write-linearizable key 1 gap before gap-Interferes (9 ∷ [])

read-Settled_example : Settled key 1 (State.read key 1 gap before)
read-Settled_example = read-Settled key 1 gap before gap-Interferes

read-Claims_example :
    ((State.read other_key 2 alone before).0 ≡ seen 2 (HashMap.get other_key before))
    × ((k : Key)
        → HashMap.get k (State.read other_key 2 alone before).1 ≡ (
            if other_key == k
            then some (claim 2 (HashMap.get other_key before))
            else HashMap.get k before))
read-Claims_example = read-Claims other_key 2 before

write-Interferes_example : Interferes 1 before (State.write other_key (6 ∷ []) 2 alone before).1
write-Interferes_example = write-Interferes 1 2 (λ e. omega (arith, e)) other_key (6 ∷ []) before

abbrev bobs : AccountBalance
bobs = record { free = 3; reserved = 4 }

abbrev doubled : AccountBalance → AccountBalance
doubled x = record x { free = x.free + x.free }

-- What Bob has at first.
abbrev old : AccountBalance
old = stored (balance_of balance_codec) genesis bob

old_of_bob : read_value (balance_of balance_codec) 1 genesis bob ≡ returned (ok old)
unfolding run Sequential.read stored state_value
old_of_bob = refl

read-write_example :
    (read_after (balance_of balance_codec) 1 genesis (write (balance_of balance_codec) bob bobs) bob
      ≡ (if bob == bob
          then returned (ok bobs)
          else read_value (balance_of balance_codec) 1 genesis bob))
    × (read_after
          (balance_of balance_codec)
          1
          genesis
          (mutate (balance_of balance_codec) bob doubled)
          bob
        ≡ (if bob == bob
            then returned (ok (doubled old))
            else read_value (balance_of balance_codec) 1 genesis bob))
    × (read_after (balance_of balance_codec) 1 genesis (clear (balance_of balance_codec) bob) bob
        ≡ (if bob == bob
            then returned (ok default)
            else read_value (balance_of balance_codec) 1 genesis bob))
read-write_example =
    read-write (balance_of balance_codec) 1 genesis bob bob bobs doubled old old_of_bob

key_for-injective_example : alice ≡ 1 ∷ []
key_for-injective_example = key_for-injective (balance_of balance_codec) alice (1 ∷ []) refl
