-- ===== src/Size/Cache.antt =====
-- `page_size` and `allocation_size` over the statics that cache the system's answer.
use vmap_rs.Prelude.{ℕ, ◌≡◌, ◌⊎◌, arith}
use vmap_rs.Size.{Statics, load_system_info, page_size, allocation_size}

-- A cell is unset, or it holds what the system answered.
pub record IsCached (info : ℕ × ℕ) (st : Statics) : Type 0 where
  pub page_ok : (st.page_cell ≡ 0) ⊎ (st.page_cell ≡ info.0)
  pub alloc_ok : (st.alloc_cell ≡ 0) ⊎ (st.alloc_cell ≡ info.1)

-- The ways in which a thread's loads and stores move the statics. Each store is atomic by itself, so
-- between the two of `load_system_info` other threads see one of the cells set.
pub data Step (info : ℕ × ℕ) : Statics → Statics → Type 0 where
  store_page : (st : Statics) → Step info st (record st { page_cell = info.0 })
  store_alloc : (st : Statics) → Step info st (record st { alloc_cell = info.1 })

pub data Reach (info : ℕ × ℕ) (s : Statics) : Statics → Type 0 where
  here : Reach info s s
  next : {t u : Statics} → Reach info s t → Step info t u → Reach info s u

Step-IsCached : {info : ℕ × ℕ} {s t : Statics} → Step info s t → IsCached info s → IsCached info t
Step-IsCached (store_page st) h = ground arith
Step-IsCached (store_alloc st) h = ground arith

Reach-IsCached : {info : ℕ × ℕ} {s t : Statics} → IsCached info s → Reach info s t → IsCached info t
Reach-IsCached h here = h
Reach-IsCached h (next r st) = Step-IsCached st (Reach-IsCached h r)

-- Whatever stores of other threads a thread meets, each function returns the system's own number,
-- and leaves the statics unset or at the system's numbers. At first the statics are unset or hold
-- the system's numbers.
pub sizes_agree :
    (info : ℕ × ℕ) {s t : Statics}
    → IsCached info s
    → Reach info s t
    → ((page_size info t).0 ≡ info.0)
      × ((allocation_size info t).0 ≡ info.1)
      × IsCached info (page_size info t).1
      × IsCached info (allocation_size info t).1
unfolding page_size allocation_size load_system_info
sizes_agree info h r = let c = Reach-IsCached h r in ground (arith, c.page_ok, c.alloc_ok)
