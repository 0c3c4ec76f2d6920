-- ===== src/Kv/Snapshot/RoundTrip.antt =====
-- kvraft/server.cpp: what a server makes of the snapshot that another one encoded.
use chon_kv.Base.{
  ◌<◌, ◌^◌, ◌≡◌, refl, sym, subst, some, List, [], ◌∷◌, ◌++◌, append_assoc, append-nil, length, inl,
  inr, false, eqz, Bool-cases,
}
use chon_kv.Codec.{get_bytes, get_int, get_index, get_varint, get_list}
use chon_kv.Codec.Reads.{Reads, Reads-bind, decode_all-Reads}
use chon_kv.Codec.RoundTrip.{
  All, IsU64, IsI32, get_bytes-put_bytes, get_int-put_int, get_index-put_index,
  get_varint-put_varint, get_list-put_list,
}
use chon_kv.Kv.Sessions.{Session, Fence, load_session}
use chon_kv.Kv.Sessions.Unique.{
  Unique, Unique-before, clients, fenced_clients, clients-append, fenced_clients-append, has,
  find_fence-has,
}
use chon_kv.Kv.Server.{Pair, KvState}
use chon_kv.Kv.Server.Ordered.{AreOrdered, set_key_last}
use chon_kv.Kv.Snapshot.{
  put_pair, get_pair, put_session, get_session, put_fence, get_fence, Contents, contents_of,
  put_contents, get_contents, encode_snapshot, store_all, load_all, insert_fence, insert_all,
  apply_snapshot,
}

abbrev pub PairFits : Pair → Type 0
PairFits p = IsU64 (length p.key) × IsU64 (length p.value)

abbrev pub SessionFits : Session → Type 0
SessionFits e = IsI32 e.client_id × ((e.last_seq < 2 ^ 63) × IsU64 e.last_index)

abbrev pub FenceFits : Fence → Type 0
FenceFits f = IsI32 f.client_id × (f.last_seq < 2 ^ 63)

pub record ContentsFits (p : Contents) : Type 0 where
  pub pairs : All PairFits p.pairs
  pub pair_count : length p.pairs < 2 ^ 31
  pub sessions : All SessionFits p.sessions
  pub session_count : length p.sessions < 2 ^ 31
  pub fences : All FenceFits p.fences
  pub fence_count : length p.fences < 2 ^ 31

get_pair-put_pair : (p : Pair) → PairFits p → Reads get_pair (put_pair p) p
unfolding get_pair put_pair
get_pair-put_pair p h =
    Reads-bind get_bytes _ _ _ _ _ (get_bytes-put_bytes _ h.0)
      (Reads-bind get_bytes _ _ _ _ _ (get_bytes-put_bytes _ h.1) (λ r. refl))

get_session-put_session : (e : Session) → SessionFits e → Reads get_session (put_session e) e
unfolding get_session put_session
get_session-put_session e h = Reads-bind get_int _ _ _ _ _ (get_int-put_int _ h.0) (
    Reads-bind get_index _ _ _ _ _ (get_index-put_index _ h.1.0)
      (Reads-bind get_varint _ _ _ _ _ (get_varint-put_varint _ h.1.1) (λ r. refl)))

get_fence-put_fence : (f : Fence) → FenceFits f → Reads get_fence (put_fence f) f
unfolding get_fence put_fence
get_fence-put_fence f h =
    Reads-bind get_int _ _ _ _ _ (get_int-put_int _ h.0)
      (Reads-bind get_index _ _ _ _ _ (get_index-put_index _ h.1) (λ r. refl))

get_contents-put_contents : (p : Contents) → ContentsFits p → Reads get_contents (put_contents p) p
unfolding get_contents put_contents
get_contents-put_contents p h =
    Reads-bind (get_list get_pair) _ _ _ _ _
      (get_list-put_list PairFits get_pair put_pair get_pair-put_pair p.pairs h.pairs h.pair_count)
      (Reads-bind (get_list get_session) _ _ _ _ _
        (get_list-put_list SessionFits get_session put_session get_session-put_session p.sessions
          h.sessions h.session_count)
        (Reads-bind (get_list get_fence) _ _ _ _ _
          (get_list-put_list FenceFits get_fence put_fence get_fence-put_fence p.fences h.fences
            h.fence_count)
          (λ r. refl)))

store_all-append : (more ps : List Pair) → AreOrdered (ps ++ more) → store_all more ps ≡ ps ++ more
unfolding store_all
store_all-append [] ps w = sym (append-nil ps)
store_all-append (p ∷ more) ps w =
    rw
      (
        set_key_last ps p more w,
        store_all-append more (ps ++ p ∷ [])
            (subst AreOrdered (sym (append_assoc ps (p ∷ []) more)) w),
        append_assoc ps (p ∷ []) more,
      )
      refl

load_session_last :
    (n : Session) (es : List Session)
    → has n.client_id (clients es) ≡ false
    → load_session n es ≡ es ++ n ∷ []
unfolding load_session
load_session_last n [] h = refl
load_session_last n (e ∷ es) h = elim (Bool-cases (eqz e.client_id n.client_id)) [
  | inl same ↦ cc (rw same at h)
  | inr other ↦ rw (other, load_session_last n es (rw other at h)) refl
]

load_all-append :
    (more es : List Session) → Unique (clients (es ++ more)) → load_all more es ≡ es ++ more
unfolding load_all
load_all-append [] es w = sym (append-nil es)
load_all-append (n ∷ more) es w =
    rw
      (
        load_session_last n es (
            Unique-before n.client_id (clients es) (clients more)
              (subst Unique (clients-append es (n ∷ more)) w)),
        load_all-append more (es ++ n ∷ [])
            (subst (λ l. Unique (clients l)) (sym (append_assoc es (n ∷ []) more)) w),
        append_assoc es (n ∷ []) more,
      )
      refl

insert_fence_last :
    (n : Fence) (fs : List Fence)
    → has n.client_id (fenced_clients fs) ≡ false
    → insert_fence n fs ≡ fs ++ n ∷ []
unfolding insert_fence
insert_fence_last n fs h = rw (find_fence-has n.client_id fs h, insert_fence) refl

insert_all-append :
    (more fs : List Fence) → Unique (fenced_clients (fs ++ more)) → insert_all more fs ≡ fs ++ more
unfolding insert_all
insert_all-append [] fs w = sym (append-nil fs)
insert_all-append (n ∷ more) fs w =
    rw
      (
        insert_fence_last n fs (
            Unique-before n.client_id (fenced_clients fs) (fenced_clients more)
              (subst Unique (fenced_clients-append fs (n ∷ more)) w)),
        insert_all-append more (fs ++ n ∷ [])
            (subst (λ l. Unique (fenced_clients l)) (sym (append_assoc fs (n ∷ []) more)) w),
        append_assoc fs (n ∷ []) more,
      )
      refl

-- The keys are in order, and no client has two sessions or two tombstones.
pub record IsSound (s : KvState) : Type 0 where
  pub store : AreOrdered s.kv_store
  pub sessions : Unique (clients s.sessions)
  pub fences : Unique (fenced_clients s.fenced)

-- A server that applies the snapshot which a sound server encoded, and whose numbers and sizes fit
-- their machine integers, has that server's store, sessions and tombstones, and keeps the rest of its
-- own state.
pub apply_snapshot-encode_snapshot :
    (s t : KvState)
    → IsSound s
    → ContentsFits (contents_of s)
    → apply_snapshot (encode_snapshot s) t
      ≡ some (record t { kv_store = s.kv_store; sessions = s.sessions; fenced = s.fenced })
unfolding apply_snapshot encode_snapshot
apply_snapshot-encode_snapshot s t w h =
    rw
      (
        decode_all-Reads get_contents (put_contents (contents_of s)) (contents_of s)
            (get_contents-put_contents (contents_of s) h),
        apply_snapshot,
        store_all-append s.kv_store [] w.store,
        load_all-append s.sessions [] w.sessions,
        insert_all-append s.fenced [] w.fences,
      )
      refl
