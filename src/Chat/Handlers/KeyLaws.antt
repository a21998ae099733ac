-- ===== src/Chat/Handlers/KeyLaws.antt =====
-- SETCKEY and GETCKEY together.

use kirov_server_emulator.Chat.Sending.States.{broadcast_to_channel-Ends}
use kirov_server_emulator.Chat.Sending.{
  deliver, numeric, send_message, send_numeric, send_numerics, seq,
}
use kirov_server_emulator.Chat.Handlers.Keys.{
  check_keys, handle_getckey, handle_setckey, key_pairs, nonempty_parts, other_values,
  requested_keys, response_values, set_keys, stats_or_empty, store_keys, update_all, get_keys,
  send_keys, target_nicks, strip_backslash,
}
use kirov_server_emulator.Prelude.{
  ==_refl, Option, [], contains, false, list_eq, nat_eq, option_eq, pair_eq, refl, some, true, ℕ,
  ◌++◌, ◌==◌, ◌∷◌, ◌≡◌,
}
use kirov_server_emulator.Prelude.Text.{Free, Text, codes, split, split-join, join}
use kirov_server_emulator.Prelude.Dict.{Dict, get, get-put, put}
use kirov_server_emulator.Prelude.Strings.{truthy}
use kirov_server_emulator.Chat.Types.{ChatServer, IrcChannel, nickname_of, set_channel}

split_pair : (k v : Text) → Free 92 k → Free 92 v → split 92 (k ++ 92 ∷ v) ≡ k ∷ v ∷ []
unfolding join
split_pair k v fk fv = split-join 92 k (v ∷ []) (fk, (fv, tt))

stored :
    (ch : IrcChannel) (n : Option Text) (k v : Text)
    → Free 92 k
    → Free 92 v
    → get (store_keys ch n (k ++ 92 ∷ v)).user_stats n
      ≡ some (put (stats_or_empty (get ch.user_stats n)) k v)
unfolding store_keys key_pairs update_all put
stored ch n k v fk fv =
    let old = stats_or_empty (get ch.user_stats n) in
    rw (split_pair k v fk fv, get-put ch.user_stats n (update_all old (put [] k v)) n, ==_refl n)
      refl

split_one : (k : Text) → Free 92 k → split 92 k ≡ k ∷ []
unfolding join
split_one k fk = split-join 92 k [] (fk, tt)

requested_one : (k : Text) → truthy k ≡ true → Free 92 k → requested_keys (92 ∷ k) ≡ k ∷ []
unfolding requested_keys nonempty_parts
requested_one k some_key fk = rw (split_one k fk, some_key) refl

response_one :
    (s : ChatServer) (ch : IrcChannel) (n k v : Text) (d : Dict Text Text)
    → (k == codes "username") ≡ false
    → get ch.user_stats (some n) ≡ some d
    → get d k ≡ some v
    → response_values s ch n (k ∷ []) ≡ v ∷ []
unfolding response_values other_values contains
response_one s ch n k v d other found value = rw (other, found, value) refl

get-put_self : (d : Dict Text Text) (k v : Text) → get (put d k v) k ≡ some v
get-put_self d k v = rw (get-put d k v k, ==_refl k) refl

get-set_channel :
    (s : ChatServer) (ch : IrcChannel) (name : Text)
    → get (set_channel s ch name).irc_channels name ≡ some ch
unfolding set_channel
get-set_channel s ch name = rw (get-put s.irc_channels name ch name, ==_refl name) refl

found_getckey :
    (t : ChatServer) (d : ℕ) (name target request_id flags keys : Text) (ch : IrcChannel)
    → get t.irc_channels name ≡ some ch
    → handle_getckey t d (name ∷ target ∷ request_id ∷ flags ∷ keys ∷ [])
      ≡ get_keys t d name target request_id keys ch
unfolding handle_getckey
found_getckey t d name target request_id flags keys ch found = rw (handle_getckey, found) refl

set_channel_writable :
    (s : ChatServer) (ch : IrcChannel) (name : Text) (d : ℕ)
    → (s.connections d).writable ≡ true
    → ((set_channel s ch name).connections d).writable ≡ true
unfolding set_channel
set_channel_writable s ch name d works = works

found_setckey :
    (s : ChatServer) (c : ℕ) (name target keys : Text) (ch : IrcChannel)
    → get s.irc_channels name ≡ some ch
    → handle_setckey s c (name ∷ target ∷ keys ∷ []) ≡ check_keys s c name target keys ch
unfolding handle_setckey
found_setckey s c name target keys ch found = rw (handle_setckey, found) refl

own_keys :
    (s : ChatServer) (c : ℕ) (name n keys : Text) (ch : IrcChannel)
    → nickname_of s c ≡ some n
    → contains ch.users (some n) ≡ true
    → (check_keys s c name n keys ch).state
      ≡ set_channel s (store_keys ch (some n) (strip_backslash keys)) name
unfolding check_keys set_keys
own_keys s c name n keys ch named member =
    let t = set_channel s (store_keys ch (some n) (strip_backslash keys)) name in
    rw (named, ==_refl (some n), member)
      (broadcast_to_channel-Ends {P = λ x. x ≡ t} t c name _ false refl).holds

asked :
    (t : ChatServer) (d : ℕ) (name n k v request_id : Text) (ch : IrcChannel)
    → contains ch.users (some n) ≡ true
    → (n == codes "*") ≡ false
    → requested_keys (92 ∷ k) ≡ k ∷ []
    → response_values t ch n (k ∷ []) ≡ v ∷ []
    → (t.connections d).writable ≡ true
    → (get_keys t d name n request_id (92 ∷ k) ch).sent
      ≡ deliver d (numeric t d (codes "702") (name ∷ n ∷ request_id ∷ (92 ∷ v) ∷ []))
        ∷ deliver d (numeric t d (codes "703") (name ∷ request_id ∷ codes "End of GETCKEY" ∷ []))
        ∷ []
unfolding get_keys send_keys target_nicks send_numerics send_numeric send_message seq join
asked t d name n k v request_id ch member plain keys values works =
    rw (plain, member, keys, values, works, works) refl

-- A member sets a key of his, and anyone then asks for it: the reply is the value, in the form in
-- which it was sent, and the end of the list. The key is not empty and not `username`, neither key
-- nor value holds a backslash, the nickname is not `*`, and the client that asks can be written to.
pub handle_getckey-handle_setckey :
    (s : ChatServer) (c d : ℕ) (name n k v request_id flags : Text) (ch : IrcChannel)
    → get s.irc_channels name ≡ some ch
    → nickname_of s c ≡ some n
    → contains ch.users (some n) ≡ true
    → (n == codes "*") ≡ false
    → truthy k ≡ true
    → (k == codes "username") ≡ false
    → Free 92 k
    → Free 92 v
    → (s.connections d).writable ≡ true
    → let t = (handle_setckey s c (name ∷ n ∷ (92 ∷ k ++ 92 ∷ v) ∷ [])).state in
      (handle_getckey t d (name ∷ n ∷ request_id ∷ flags ∷ (92 ∷ k) ∷ [])).sent
      ≡ deliver d (numeric t d (codes "702") (name ∷ n ∷ request_id ∷ (92 ∷ v) ∷ []))
        ∷ deliver d (numeric t d (codes "703") (name ∷ request_id ∷ codes "End of GETCKEY" ∷ []))
        ∷ []
unfolding store_keys
handle_getckey-handle_setckey s c d name n k v request_id flags ch found named member plain some_key
      other fk fv works =
    let ch' = store_keys ch (some n) (k ++ 92 ∷ v) in
    let t = set_channel s ch' name in
    let set_ : (handle_setckey s c (name ∷ n ∷ (92 ∷ k ++ 92 ∷ v) ∷ [])).state ≡ t =
      rw (found_setckey s c name n (92 ∷ k ++ 92 ∷ v) ch found)
        (own_keys s c name n (92 ∷ k ++ 92 ∷ v) ch named member) in
    rw (set_, found_getckey t d name n request_id flags (92 ∷ k) ch' (get-set_channel s ch' name))
      (asked t d name n k v request_id ch' member plain (requested_one k some_key fk)
        (response_one t ch' n k v (put (stats_or_empty (get ch.user_stats (some n))) k v) other
          (stored ch (some n) k v fk fv)
          (get-put_self (stats_or_empty (get ch.user_stats (some n))) k v))
        (set_channel_writable s ch' name d works))
