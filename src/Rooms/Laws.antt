-- ===== src/Rooms/Laws.antt =====
-- What the commands on one hash do to its names, to a read, and to its time to live.
use yorr.Prelude.{
  ℕ, ◌<◌, String, ◌≡◌, refl, ap, true, false, Option, none, some, [], ◌∷◌, ◌++◌, Dict, insert,
  delete, lookup-insert, lookup-delete, keys, keys-insert, keys-delete, length, length-keys,
  includes, without, str_eq, if◌then◌else◌, arith,
}
use yorr.Rooms.Hashes.{Hash, exists, hget, hlen, hkeys, hset, hdel, dropped, pexpire, align}

pub hkeys-hset :
    (h : Hash) (k v : String)
    → hkeys (hset h k v) ≡ (if includes (hkeys h) k then hkeys h else hkeys h ++ k ∷ [])
unfolding hset
hkeys-hset h k v = keys-insert k v h.fields

pub hget-hset :
    (h : Hash) (k v j : String) → hget (hset h k v) j ≡ (if str_eq k j then some v else hget h j)
unfolding hset hget
hget-hset h k v j = lookup-insert k j v h.fields

fields-dropped : (m : Dict String) (ttl : Option ℕ) → (dropped m ttl).fields ≡ m
unfolding dropped
fields-dropped [] ttl = refl
fields-dropped (x ∷ rest) ttl = refl

pub hkeys-hdel : (h : Hash) (k : String) → hkeys (hdel h k) ≡ without k (hkeys h)
unfolding hdel
hkeys-hdel h k = rw (fields-dropped (delete k h.fields) h.ttl) (keys-delete k h.fields)

pub hget-hdel :
    (h : Hash) (k j : String) → hget (hdel h k) j ≡ (if str_eq k j then none else hget h j)
unfolding hdel hget
hget-hdel h k j = rw (fields-dropped (delete k h.fields) h.ttl) (lookup-delete k j h.fields)

pub fields-pexpire : (h : Hash) (ms : ℕ) → 0 < ms → (pexpire h ms).fields ≡ h.fields
unfolding pexpire
fields-pexpire h ms p = ground arith

pub fields-align : (room h : Hash) → (align room h).fields ≡ h.fields
unfolding align pexpire
fields-align room h = ground arith

pub exists-insert :
    (k v : String) (m : Dict String) (ttl : Option ℕ)
    → exists (record { fields = insert k v m; ttl = ttl }) ≡ true
unfolding exists insert
exists-insert k v [] ttl = refl
exists-insert k v ((j, w) ∷ m) ttl = refl

pub exists-hset : (h : Hash) (k v : String) → exists (hset h k v) ≡ true
unfolding hset
exists-hset h k v = exists-insert k v h.fields h.ttl

-- A hash of a room that has `ttl` yet to live lives as long, and what is not there has no time to live.
abbrev pub IsAligned : Option ℕ → Hash → Type 0
IsAligned ttl h = h.ttl ≡ (if exists h then ttl else none)

pub align-IsAligned :
    (room h : Hash) (ms : ℕ)
    → room.ttl ≡ some ms
    → 0 < ms
    → (exists h ≡ false → h.ttl ≡ none)
    → IsAligned room.ttl (align room h)
unfolding align pexpire exists
align-IsAligned room h ms e p absent = ground arith

dropped-IsAligned : (m : Dict String) (t ttl : Option ℕ) → t ≡ ttl → IsAligned ttl (dropped m t)
unfolding dropped exists
dropped-IsAligned [] t ttl e = refl
dropped-IsAligned (x ∷ rest) t ttl e = e

pub hdel-IsAligned :
    (ttl : Option ℕ) (h : Hash) (k : String) → IsAligned ttl h → IsAligned ttl (hdel h k)
unfolding hdel dropped exists delete
hdel-IsAligned ttl h k a = by_fields h.fields a
  where
    by_fields :
        (m : Dict String)
        → IsAligned ttl (record { fields = m; ttl = h.ttl })
        → IsAligned ttl (dropped (delete k m) h.ttl)
    by_fields [] e = refl
    by_fields (x ∷ rest) e = dropped-IsAligned (delete k (x ∷ rest)) h.ttl ttl e

pub pexpire-IsAligned :
    (ttl : Option ℕ) (h : Hash) (ms : ℕ)
    → 0 < ms
    → IsAligned ttl h
    → IsAligned (some ms) (pexpire h ms)
unfolding pexpire exists
pexpire-IsAligned ttl h ms p a = ground arith

pub hlen_lem : (h : Hash) → length (hkeys h) ≡ hlen h
unfolding hlen
hlen_lem h = length-keys h.fields

pub hkeys-align : (room h : Hash) → hkeys (align room h) ≡ hkeys h
hkeys-align room h = ap keys (fields-align room h)

pub hkeys-pexpire : (h : Hash) (ms : ℕ) → 0 < ms → hkeys (pexpire h ms) ≡ hkeys h
hkeys-pexpire h ms p = ap keys (fields-pexpire h ms p)

-- What is not there has no time to live.
pub no_ttl : (ttl : Option ℕ) (h : Hash) → IsAligned ttl h → exists h ≡ false → h.ttl ≡ none
no_ttl ttl h a e = ground arith

ttl-dropped :
    (m : Dict String) (ttl : Option ℕ) → exists (dropped m ttl) ≡ true → (dropped m ttl).ttl ≡ ttl
unfolding dropped exists
ttl-dropped [] ttl e = cc
ttl-dropped (x ∷ rest) ttl e = refl

pub ttl-hdel : (h : Hash) (k : String) → exists (hdel h k) ≡ true → (hdel h k).ttl ≡ h.ttl
unfolding hdel
ttl-hdel h k e = ttl-dropped (delete k h.fields) h.ttl e
