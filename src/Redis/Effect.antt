-- ===== src/Redis/Effect.antt =====
-- The documented effects of the Redis commands that src/TaskQueue/backends/redis_backend.py sends,
-- on a view of the database.
use task_queue.Base.{remove_one, ℕ, String, List, none, some, [], ◌∷◌, ◌++◌}
use task_queue.Base.Dict.{insert, erase}
use task_queue.Python.{Record}
use task_queue.Redis.View.{View, update, or_no_fields, write_fields, tail}

abbrev pub hset : String → Record → View → View
hset k ps v = record v { hash = update k (some (write_fields ps (or_no_fields (v.hash k)))) v.hash }

abbrev pub delete : String → View → View
delete k v = record v { hash = update k none v.hash; expiry = update k none v.expiry }

abbrev pub rpush : String → String → View → View
rpush k x v = record v { list = update k (v.list k ++ x ∷ []) v.list }

abbrev pub lpop : String → View → View
lpop k v = record v { list = update k (tail (v.list k)) v.list }

-- Nothing is moved from an empty list.
abbrev pub blmove_head : String → String → List String → View → View
blmove_head src dst [] v = v
blmove_head src dst (x ∷ xs) v = rpush dst x (lpop src v)

abbrev pub blmove : String → String → View → View
blmove src dst v = blmove_head src dst (v.list src) v

abbrev pub lrem : String → String → View → View
lrem k x v = record v { list = update k (remove_one x (v.list k)) v.list }

abbrev pub zadd : String → ℕ → String → View → View
zadd k score x v = record v { zset = update k (insert x score (v.zset k)) v.zset }

abbrev pub zrem : String → String → View → View
zrem k x v = record v { zset = update k (erase x (v.zset k)) v.zset }

abbrev pub expire : String → ℕ → View → View
expire k seconds v = record v { expiry = update k (some seconds) v.expiry }

abbrev pub publish : String → View → View
publish channel v = record v { published = v.published ++ channel ∷ [] }
