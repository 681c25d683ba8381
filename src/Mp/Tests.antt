-- ===== src/Mp/Tests.antt =====
-- Thread-local storage at a concrete state.
use cardinal.Base.{◌≡◌, refl, true, panic}
use cardinal.Mp.{Cores, mp_tls_alloc}

abbrev booted : Cores
booted = record { pos = 8; mp_loc = 0; core_count = 1; core_ready = true }

too_much : mp_tls_alloc 20000 booted ≡ panic
unfolding mp_tls_alloc
too_much = refl
