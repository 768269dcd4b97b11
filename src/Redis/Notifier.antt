-- ===== src/Redis/Notifier.antt =====
-- src/TaskQueue/backends/redis_backend.py, `_Notifier`: the pubsub connection that the waiters share.
-- The lock makes `join` and `leave` one step each. `flags` is the heap of the `asyncio.Event` objects,
-- an event being its index there; `subscribed` are the channels of the connection on the server.
pub mod Watching
pub mod Woken
use task_queue.Base.{
  ℕ, suc, String, ◌==◌, Bool, true, false, Option, none, some, List, [], ◌∷◌, ◌++◌, length, get_or,
  set, member, nat_eq, if◌then◌else◌,
}
use task_queue.Base.Dict.{Dict, lookup, contains, insert, erase}
use task_queue.Python.{foreign, Result, ok, err}

-- `reader` is the task that reads messages: none, running, or stopped by an exception of the driver.
pub data Reader : Type 0 where
  no_reader reads stopped : Reader

pub record Notifier : Type 0 where
  pub pubsub : Bool
  pub reader : Reader
  pub waiters : Dict (List ℕ)
  pub flags : List Bool
  pub subscribed : List String

-- `_Notifier(client)`
abbrev pub new_notifier : Notifier
new_notifier = record {
  pubsub = false;
  reader = no_reader;
  waiters = [];
  flags = [];
  subscribed = [];
}

-- `self._waiters.get(channel, ())`
abbrev pub watchers_of : Option (List ℕ) → List ℕ
watchers_of none = []
watchers_of (some es) = es

-- `watchers.discard(woken)`
abbrev pub discard : ℕ → List ℕ → List ℕ
discard e [] = []
discard e (d ∷ ds) = let rest = discard e ds in if nat_eq d e then rest else d ∷ rest

abbrev pub keep_or_drop : String → List ℕ → Dict (List ℕ) → Dict (List ℕ)
keep_or_drop channel [] d = erase channel d
keep_or_drop channel (e ∷ es) d = insert channel (e ∷ es) d

-- `_forget`
abbrev pub forget_in : String → ℕ → Option (List ℕ) → Notifier → Notifier
forget_in channel e none n = n
forget_in channel e (some es) n = record n {
  waiters = keep_or_drop channel (discard e es) n.waiters;
}

unfoldable pub forget : String → ℕ → Notifier → Notifier
forget channel e n = forget_in channel e (lookup channel n.waiters) n

-- `if self._reader is None`
abbrev pub start_reader : Reader → Reader
start_reader no_reader = reads
start_reader reads = reads
start_reader stopped = stopped

abbrev pub listed : String → Notifier → Notifier
listed channel n = record n {
  pubsub = true;
  waiters =
      insert channel (watchers_of (lookup channel n.waiters) ++ length n.flags ∷ []) n.waiters;
  flags = n.flags ++ false ∷ [];
}

-- The subscription of a channel that has its first watcher; `reached` tells whether it gets through.
abbrev pub subscribe : Bool → String → ℕ → List ℕ → Notifier → Notifier × Result ℕ
subscribe true channel e [] n =
    (record n { subscribed = channel ∷ n.subscribed; reader = start_reader n.reader }, ok e)
subscribe false channel e [] n = (forget channel e n, err (foreign "ConnectionError"))
subscribe reached channel e (d ∷ ds) n = (record n { reader = start_reader n.reader }, ok e)

unfoldable pub join : Bool → String → Notifier → Notifier × Result ℕ
join reached channel n =
    subscribe reached channel (length n.flags) (watchers_of (lookup channel n.waiters))
      (listed channel n)

-- A set without one channel.
abbrev pub without : String → List String → List String
without x [] = []
without x (y ∷ ys) = let rest = without x ys in if y == x then rest else y ∷ rest

-- The channel has no watcher left, but another one may.
abbrev pub after_last : Bool → String → Dict (List ℕ) → Notifier → Notifier
after_last reached channel [] n = record n { reader = no_reader; pubsub = false; subscribed = [] }
after_last true channel (w ∷ ws) n = record n { subscribed = without channel n.subscribed }
after_last false channel (w ∷ ws) n = n

unfoldable pub leave : Bool → String → ℕ → Notifier → Notifier
leave reached channel e n =
    let n' = forget channel e n in
    if contains channel n'.waiters then n' else after_last reached channel n'.waiters n'

-- `for event in …: event.set()`
abbrev pub set_all : List ℕ → List Bool → List Bool
set_all [] flags = flags
set_all (e ∷ es) flags = set_all es (set flags e true)

-- One message that `_read` gets, while it runs.
abbrev pub read_by : Reader → String → Notifier → Notifier
read_by reads channel n = record n {
  flags = set_all (watchers_of (lookup channel n.waiters)) n.flags;
}
read_by no_reader channel n = n
read_by stopped channel n = n

unfoldable pub read_message : String → Notifier → Notifier
read_message channel n = read_by n.reader channel n

-- An exception of the driver ends `_read`, and nothing else.
abbrev pub read_failed : Notifier → Notifier
read_failed n = record n { reader = stopped }
