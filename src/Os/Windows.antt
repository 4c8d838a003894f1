-- ===== src/Os/Windows.antt =====
-- src/os/windows.rs: the platform over the Windows API, and the mapping behind a ring.
pub mod Views
pub mod Left
pub mod Attempts
pub mod Ring
pub mod Reports
pub mod Lifetime
pub mod World
mod Tests
use Prim.Native.Nat.{bit_and}
use vmap_rs.Prelude.{
  ℕ, zero, suc, ◌-◌, ◌^◌, ◌==◌, ==→≡, if_post, ◌≡◌, refl, ap, ◌∙◌, inl, inr, Bool-cases, Option,
  none, some, Bool, true, false, if◌then◌else◌,
}
use vmap_rs.Word.{add_word, shr_word, low_u32}
use vmap_rs.Std.{Result, ok, err}
use vmap_rs.Error.{Error, Operation, last_os_error}
use vmap_rs.Types.{Protect, Flush, Advise}
use vmap_rs.Os.{Call, ◌>>=◌, pure, Platform}

-- The `PAGE_*` constants that the file uses.
pub data PageProt : Type 0 where
  page_noaccess page_readonly page_readwrite page_writecopy page_execute_read : PageProt

-- `FILE_MAP_COPY`, `FILE_MAP_READ`, `FILE_MAP_WRITE` and `FILE_MAP_EXECUTE`
pub record Access : Type 0 where
  pub copy : Bool
  pub read : Bool
  pub write : Bool
  pub execute : Bool

-- `MEM_RESERVE` and `MEM_RELEASE`
pub data MemType : Type 0 where
  mem_reserve mem_release : MemType

-- What the file uses of `winapi`. A null pointer and `FALSE` are 0; the file `none` is
-- `INVALID_HANDLE_VALUE`. `last_error` is `system_error::Error::last_os_error()`.
pub record Winapi (St S : Type 0) : Type 0 where
  -- `hFile`, `flProtect`, and the high and the low half of the size
  pub create_file_mapping : Option ℕ → PageProt → ℕ → ℕ → St → ℕ × St
  -- the mapping, the access, the high and the low half of the offset, the size and the address
  pub map_view_of_file : ℕ → Access → ℕ → ℕ → ℕ → ℕ → St → ℕ × St
  pub unmap_view_of_file : ℕ → St → ℕ × St
  pub close_handle : ℕ → St → ℕ × St
  -- the page size and the allocation granularity
  pub get_system_info : ℕ × ℕ
  pub virtual_alloc : ℕ → ℕ → MemType → PageProt → St → ℕ × St
  pub virtual_free : ℕ → ℕ → MemType → St → ℕ × St
  pub virtual_protect : ℕ → ℕ → PageProt → St → ℕ × St
  pub flush_view_of_file : ℕ → ℕ → St → ℕ × St
  pub flush_file_buffers : ℕ → St → ℕ × St
  pub virtual_lock : ℕ → ℕ → St → ℕ × St
  pub virtual_unlock : ℕ → ℕ → St → ℕ × St
  pub last_error : St → S

abbrev pub access_read : Access
access_read = record { copy = false; read = true; write = false; execute = false }

abbrev pub access_read_write : Access
access_read_write = record { copy = false; read = true; write = true; execute = false }

abbrev pub access_copy : Access
access_copy = record { copy = true; read = false; write = false; execute = false }

abbrev pub access_read_execute : Access
access_read_execute = record { copy = false; read = true; write = false; execute = true }

-- The two `DWORD`s of a length or an offset.
pub high_dword : ℕ → ℕ
high_dword n = low_u32 (shr_word (shr_word n 16) 16)

pub low_dword : ℕ → ℕ
low_dword n = low_u32 (bit_and n (2 ^ 32 - 1))

pub record MapHandle : Type 0 where
  pub map : ℕ

-- The match of `map_file`.
pub file_access : Protect → PageProt × Access
file_access Protect.read_only = (PageProt.page_readonly, access_read)
file_access Protect.read_write = (PageProt.page_readwrite, access_read_write)
file_access Protect.read_copy = (PageProt.page_writecopy, access_copy)
file_access Protect.read_exec = (PageProt.page_execute_read, access_read_execute)

-- The match of `map_anon`.
pub anon_access : Protect → PageProt × Access
anon_access Protect.read_only = (PageProt.page_readonly, access_read)
anon_access Protect.read_write = (PageProt.page_readwrite, access_read_write)
anon_access Protect.read_copy = (PageProt.page_writecopy, access_copy)
anon_access Protect.read_exec = (PageProt.page_execute_read, access_read_execute)

-- The match of `protect`.
pub page_prot : Protect → PageProt
page_prot Protect.read_only = PageProt.page_readonly
page_prot Protect.read_write = PageProt.page_readwrite
page_prot Protect.read_copy = PageProt.page_readwrite
page_prot Protect.read_exec = PageProt.page_execute_read

module _ {St S : Type 0} (api : Winapi St S) where
  -- The last system error becomes the result if the call gave null, or `FALSE`.
  unfoldable pub non_null : Operation → (St → ℕ × St) → Call St S ℕ
  non_null op call st =
      let (pg, st') = call st in
      if pg == 0 then (err (last_os_error op (api.last_error st')), st') else (ok pg, st')

  unfoldable pub nonzero : Operation → (St → ℕ × St) → Call St S (Unit {0})
  nonzero op call st =
      let (r, st') = call st in
      if r == 0 then (err (last_os_error op (api.last_error st')), st') else (ok tt, st')

  -- `MapHandle::new`
  pub new : Operation → Option ℕ → PageProt → ℕ → Call St S MapHandle
  new op file prot len =
      non_null op (api.create_file_mapping file prot (high_dword len) (low_dword len)) >>= λ map.
      pure (record { map = map })

  pub view_ptr : MapHandle → Access → ℕ → ℕ → ℕ → St → ℕ × St
  view_ptr self access off len at =
      api.map_view_of_file self.map access (high_dword off) (low_dword off) len at

  pub view : MapHandle → Operation → Access → ℕ → ℕ → ℕ → Call St S ℕ
  view self op access off len at = non_null op (view_ptr self access off len at)

  -- `Drop for MapHandle`, when the value that the scope computes is there.
  pub drop : {A : Type 0} → MapHandle → Result A (Error S) × St → Result A (Error S) × St
  drop self (r, st) = (r, (api.close_handle self.map st).1)

  pub system_info : ℕ × ℕ
  system_info = api.get_system_info

  pub map_file : ℕ → ℕ → ℕ → Protect → Call St S ℕ
  map_file file off len prot =
      let (p, access) = file_access prot in
      new Operation.map_file_handle (some file) p 0 >>= λ map st.
      drop map (view map Operation.map_file_view access off len 0 st)

  pub map_anon : ℕ → Protect → Call St S ℕ
  map_anon len prot =
      let (p, access) = anon_access prot in
      new Operation.map_anonymous_handle none p len >>= λ map st.
      drop map (view map Operation.map_anonymous_view access 0 len 0 st)

  -- What `VirtualFree` returns is discarded.
  pub reserve : ℕ → Call St S ℕ
  reserve len =
      non_null Operation.ring_allocate
        (api.virtual_alloc 0 len MemType.mem_reserve PageProt.page_noaccess)
      >>= λ pg st. (ok pg, (api.virtual_free pg 0 MemType.mem_release st).1)

  -- The end of `map_ring_handle`: the first view is unmapped where there is no second.
  pub or_unmap : ℕ → Result ℕ (Error S) × St → Result ℕ (Error S) × St
  or_unmap a (ok b, st) = (ok a, st)
  or_unmap a (err e, st) = (err e, (api.unmap_view_of_file a st).1)

  pub map_ring_handle : MapHandle → ℕ → ℕ → Call St S ℕ
  map_ring_handle map len pg =
      view map Operation.ring_primary access_read_write 0 len pg >>= λ a st.
      or_unmap a (view map Operation.ring_secondary access_read_write 0 len (add_word pg len) st)

  -- The loop of `map_ring`, by how often it may still go round: `5 - n`.
  pub attempts : MapHandle → ℕ → ℕ → ℕ → Call St S ℕ
  attempts map len full zero = reserve full >>= map_ring_handle map len
  attempts map len full (suc left) = reserve full >>= λ pg st.
      let (rc, st') = map_ring_handle map len pg st in
      elim rc [ ok a ↦ (ok a, st') | err e ↦ attempts map len full left st' ]

  pub map_ring : ℕ → Call St S ℕ
  map_ring len =
      let full = add_word len len in
      new Operation.ring_allocate none PageProt.page_readwrite full >>= λ map st.
      drop map (attempts map len full 5 st)

  -- The test is for success.
  unfoldable pub unmap : ℕ → ℕ → Call St S (Unit {0})
  unmap pg len st =
      let (r, st') = api.unmap_view_of_file pg st in
      if r == 0
      then (ok tt, st')
      else (err (last_os_error Operation.unmap (api.last_error st')), st')

  -- What unmapping the lower half returns is discarded.
  pub unmap_ring : ℕ → ℕ → Call St S (Unit {0})
  unmap_ring pg len =
      nonzero Operation.ring_deallocate (api.unmap_view_of_file (add_word pg len)) >>= λ _ st.
      (ok tt, (api.unmap_view_of_file pg st).1)

  pub protect : ℕ → ℕ → Protect → Call St S (Unit {0})
  protect pg len prot = nonzero Operation.protect (api.virtual_protect pg len (page_prot prot))

  -- The match of `flush`.
  pub flush_file : ℕ → Flush → Call St S (Unit {0})
  flush_file file Flush.sync = nonzero Operation.flush (api.flush_file_buffers file)
  flush_file file Flush.async = pure tt

  pub flush : ℕ → ℕ → ℕ → Flush → Call St S (Unit {0})
  flush pg file len mode =
      nonzero Operation.flush (api.flush_view_of_file pg len) >>= λ _. flush_file file mode

  pub advise : ℕ → ℕ → Advise → Call St S (Unit {0})
  advise pg len adv = pure tt

  pub lock : ℕ → ℕ → Call St S (Unit {0})
  lock pg len = nonzero Operation.lock (api.virtual_lock pg len)

  pub unlock : ℕ → ℕ → Call St S (Unit {0})
  unlock pg len = nonzero Operation.unlock (api.virtual_unlock pg len)

  -- `pub use self::windows::*`
  unfoldable pub windows : Platform St S
  windows = record {
    system_info = system_info;
    map_file = map_file;
    map_anon = map_anon;
    unmap = unmap;
    protect = protect;
    flush = flush;
    advise = advise;
    lock = lock;
    unlock = unlock;
  }

module _ {St S : Type 0} (api : Winapi St S) where
  -- To prove `Q` of what `non_null` or `nonzero` gives, or of a chain that begins with it: split on
  -- how the call ends.
  pub non_null_last {κ} :
      (Q : Result ℕ (Error S) × St → Type κ) (op : Operation) (call : St → ℕ × St) (st : St)
      → ((p : ℕ) (st' : St) → call st ≡ (p, st') → (p == 0) ≡ false → Q (ok p, st'))
      → ((st' : St) → call st ≡ (0, st') → Q (err (last_os_error op (api.last_error st')), st'))
      → Q (non_null api op call st)
  unfolding non_null
  non_null_last Q op call st on_ok on_err =
      let (p, st') = call st in
      if_post Q (p == 0) (err (last_os_error op (api.last_error st')), st') (ok p, st')
        (λ h. on_err st' (ap (λ x. (x, st')) (==→≡ p 0 h))) (λ h. on_ok p st' refl h)

  pub nonzero_last {κ} :
      (Q : Result (Unit {0}) (Error S) × St → Type κ) (op : Operation) (call : St → ℕ × St)
      (st : St)
      → ((r : ℕ) (st' : St) → call st ≡ (r, st') → (r == 0) ≡ false → Q (ok tt, st'))
      → ((st' : St) → call st ≡ (0, st') → Q (err (last_os_error op (api.last_error st')), st'))
      → Q (nonzero api op call st)
  unfolding nonzero
  nonzero_last Q op call st on_ok on_err =
      let (p, st') = call st in
      if_post Q (p == 0) (err (last_os_error op (api.last_error st')), st') (ok tt, st')
        (λ h. on_err st' (ap (λ x. (x, st')) (==→≡ p 0 h))) (λ h. on_ok p st' refl h)

  pub non_null_post {κ} :
      {B : Type 0} (Q : Result B (Error S) × St → Type κ) (op : Operation) (call : St → ℕ × St)
      (f : ℕ → Call St S B) (st : St)
      → ((p : ℕ) (st' : St) → call st ≡ (p, st') → (p == 0) ≡ false → Q (f p st'))
      → ((st' : St) → call st ≡ (0, st') → Q (err (last_os_error op (api.last_error st')), st'))
      → Q ((non_null api op call >>= f) st)
  non_null_post Q op call f st on_ok on_err =
      non_null_last (λ r. Q (elim r.0 [ ok a ↦ f a r.1 | err e ↦ (err e, r.1) ])) op call st on_ok
        on_err

  pub nonzero_post {κ} :
      {B : Type 0} (Q : Result B (Error S) × St → Type κ) (op : Operation) (call : St → ℕ × St)
      (f : Unit {0} → Call St S B) (st : St)
      → ((r : ℕ) (st' : St) → call st ≡ (r, st') → (r == 0) ≡ false → Q (f tt st'))
      → ((st' : St) → call st ≡ (0, st') → Q (err (last_os_error op (api.last_error st')), st'))
      → Q ((nonzero api op call >>= f) st)
  nonzero_post Q op call f st on_ok on_err =
      nonzero_last (λ r. Q (elim r.0 [ ok a ↦ f a r.1 | err e ↦ (err e, r.1) ])) op call st on_ok
        on_err

  pub new_post {κ} :
      {B : Type 0} (Q : Result B (Error S) × St → Type κ) (op : Operation) (file : Option ℕ)
      (prot : PageProt) (len : ℕ) (k : MapHandle → Call St S B) (st : St)
      → ((h : ℕ) (st' : St)
          → api.create_file_mapping file prot (high_dword len) (low_dword len) st ≡ (h, st')
          → (h == 0) ≡ false
          → Q (k (record { map = h }) st'))
      → ((st' : St)
          → api.create_file_mapping file prot (high_dword len) (low_dword len) st ≡ (0, st')
          → Q (err (last_os_error op (api.last_error st')), st'))
      → Q ((new api op file prot len >>= k) st)
  unfolding new
  new_post Q op file prot len k st on_ok on_err =
      non_null_post (λ r. Q (elim r.0 [ ok a ↦ k a r.1 | err e ↦ (err e, r.1) ])) op
        (api.create_file_mapping file prot (high_dword len) (low_dword len))
        (λ map. pure (record { map = map })) st on_ok on_err
