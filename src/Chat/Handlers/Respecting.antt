-- ===== src/Chat/Handlers/Respecting.antt =====
-- What a command of one client leaves as it was in a channel, by change of the channel.

use kirov_server_emulator.Chat.Handlers.Keys.{key_pairs, stats_or_empty, store_keys, update_all}
use kirov_server_emulator.Prelude.Text.{Text, split}
use kirov_server_emulator.Prelude.Dict.{get, get-put, get-remove}
use kirov_server_emulator.Prelude.{
  Option, [], arith, contains, contains-add, contains-discard, false, list_eq, nat_eq, option_eq,
  pair_eq, refl, some, true, ◌==◌, ◌≡◌, ◌||◌,
}
use kirov_server_emulator.Chat.Channels.{enter, leave}
use kirov_server_emulator.Chat.Types.{IrcChannel, is_operator, is_private_name}

-- Everybody else is a member and an operator as before, with the same statistics; topic and modes
-- are the old ones for anyone but an operator.
pub record Respects (name : Text) (nickname : Option Text) (old : IrcChannel) (new : IrcChannel)
    : Type 0 where
  pub members :
      (m : Option Text) → (nickname == m) ≡ false → contains new.users m ≡ contains old.users m
  pub ops :
      (m : Option Text)
      → (nickname == m) ≡ false
      → contains new.operators m ≡ contains old.operators m
  pub stats :
      (m : Option Text) → (nickname == m) ≡ false → get new.user_stats m ≡ get old.user_stats m
  pub topics : is_operator old nickname ≡ false → new.topic ≡ old.topic
  pub modes :
      is_private_name name ≡ false → is_operator old nickname ≡ false → new.modes ≡ old.modes

module _ (name : Text) (nickname : Option Text) (old : IrcChannel) where
  pub same_Respects : Respects name nickname old old
  same_Respects = record {
    members = λ m other. refl;
    ops = λ m other. refl;
    stats = λ m other. refl;
    topics = λ plain. refl;
    modes = λ public plain. refl;
  }

  pub enter-Respects :
      (mid : IrcChannel)
      → Respects name nickname old mid
      → Respects name nickname old (enter mid nickname)
  unfolding enter
  enter-Respects mid r = record {
    members =
        λ m other. ground (arith, contains-add mid.users nickname m, r.members m other, other);
    ops = λ m other. ground (arith, contains-add mid.operators nickname m, r.ops m other, other);
    stats = λ m other. ground (arith, get-put mid.user_stats nickname [] m, r.stats m other, other);
    topics = r.topics;
    modes = r.modes;
  }

  pub leave-Respects :
      (mid : IrcChannel)
      → Respects name nickname old mid
      → Respects name nickname old (leave mid nickname)
  unfolding leave
  leave-Respects mid r = record {
    members =
        λ m other. ground (arith, contains-discard mid.users nickname m, r.members m other, other);
    ops =
        λ m other. ground (arith, contains-discard mid.operators nickname m, r.ops m other, other);
    stats = λ m other. ground (arith, get-remove mid.user_stats nickname m, r.stats m other, other);
    topics = r.topics;
    modes = r.modes;
  }

  pub store_keys-Respects : (k : Text) → Respects name nickname old (store_keys old nickname k)
  unfolding store_keys
  store_keys-Respects k = record {
    members = λ m other. refl;
    ops = λ m other. refl;
    stats = λ m other. ground (
      arith,
      get-put old.user_stats nickname
          (update_all (stats_or_empty (get old.user_stats nickname)) (key_pairs (split 92 k) [])) m,
      other,
    );
    topics = λ plain. refl;
    modes = λ public plain. refl;
  }

  pub topic-Respects :
      (t : Text)
      → is_operator old nickname ≡ true
      → Respects name nickname old (record old { topic = some t })
  topic-Respects t allowed = record {
    members = λ m other. refl;
    ops = λ m other. refl;
    stats = λ m other. refl;
    topics = λ plain. absurd (ground (arith, allowed, plain));
    modes = λ public plain. refl;
  }

  pub modes-Respects :
      (m : Text)
      → (is_private_name name || is_operator old nickname) ≡ true
      → Respects name nickname old (record old { modes = m })
  modes-Respects m allowed = record {
    members = λ m other. refl;
    ops = λ m other. refl;
    stats = λ m other. refl;
    topics = λ plain. refl;
    modes = λ public plain. absurd (ground (arith, allowed, public, plain));
  }
