-- ===== src/Select/Tests.antt =====
-- Runs of the poller of src/np_select.h.
use lsocket.Prelude.{ℕ, ◌<◌, ◌≤◌, ◌≢◌, ◌≡◌, refl, pos, true, false, ◌||◌, ◌==◌, arith, Returns}
use lsocket.Platform.{Mask}
use lsocket.Select.{
  NpState, double_cap, is_used, np_init, add_valid, grow, np_add, np_del, np_poll, collect,
  Selected,
}
use lsocket.Select.Table.{np_add-IsTable, np_del-IsTable, np_poll-collect}
use lsocket.Select.Table.Parts.{double_cap-enough, IsTable, np_init-IsTable}

abbrev reading : Mask
reading = record { rable = true; wable = false }

-- a table for two descriptors, in which 5 is entered, so that it grows
abbrev grown : NpState
grown = (np_add (np_init 2) (pos 5) reading 40).1

grown-IsTable : IsTable grown
grown-IsTable = np_add-IsTable (np_init 2) (pos 5) reading 40 (np_init-IsTable 2)

five : is_used (grown.ud 5) ≡ true
unfolding np_add np_init add_valid grow double_cap
five = refl

np_add-IsTable_example : IsTable grown
np_add-IsTable_example = np_add-IsTable (np_init 2) (pos 5) reading 40 (np_init-IsTable 2)

double_cap-enough_example : (9 < double_cap 10 2 9) × (2 ≤ double_cap 10 2 9)
double_cap-enough_example = double_cap-enough 10 2 9 (omega arith) (omega arith)

np_del-IsTable_example :
    Returns
      (λ (r, np').
        (r ≡ pos 0)
        × IsTable np'
        × (is_used (np'.ud 5) ≡ false)
        × ((np'.rfds 5 || np'.wfds 5) ≡ false)
        × ((j : ℕ) → j ≢ 5 → np'.ud j ≡ grown.ud j))
      (np_del grown (pos 5))
np_del-IsTable_example = np_del-IsTable grown 5 grown-IsTable five refl

-- `select` that finds the descriptor 5 to be readable
abbrev found : Selected
found = record { count = pos 1; rtmp = λ fd. fd == 5; wtmp = λ fd. false }

np_poll-collect_example : np_poll grown found ≡ collect grown.ud found grown.cap 0
np_poll-collect_example = np_poll-collect grown found grown-IsTable refl
