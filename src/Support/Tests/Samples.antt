-- ===== src/Support/Tests/Samples.antt =====
-- A machine and a state of the support level for the tests. The user process 20, a child of 10, has the support
-- structure 1000 and the identifier 1; its page 2 is in the first frame, and its page 3 is missing.
use progetto_so.Base.{refl, ◌+◌, ◌*◌, ◌/◌, ◌%◌, ◌^◌, [], none, some, ==-false, arith, update}
use progetto_so.Kernel.Tests.Samples.{registers}
use progetto_so.Support.State.{Level, World}
use progetto_so.Support.Paging.{free_frame}
use progetto_so.Support.Start.Pages.{IsMachine}

abbrev pub machine : World
machine = record {
  answer = λ cs. some (record { v0 = 10; word = 5; next_word = 0 });
  stck = λ cs. 0;
  stst = λ cs. registers;
  dma = λ cs m. m;
  char_at = λ a. 65;
  ram_top = 0x2010_0000;
  page_size = 4096;
  dev_reg_addr = λ line dev. 0x1000_0054 + (line * 128 + dev * 16);
  il_flash = 4;
  il_terminal = 7;
  exc_code = λ c. (c / 4) % 32;
  get_vpn = λ hi. (hi / 4096) % 2 ^ 18;
  get_asid = λ hi. (hi / 64) % 64;
  vpn_bit = 12;
  asid_bit = 6;
  entrylo_dirty = 0x400;
  entrylo_pfn_mask = 0xffff_f000;
  index_after_tlbp = λ tlb hi. 0x8000_0000;
  free_support_owner = 0;
  sup_private_pg_tbl = λ s i. s + 300 + 8 * i;
  swap_mutex_code = 1;
  sst_server_code = 2;
  terminal_mutex_code = λ i. 3;
  printer_mutex_code = λ i. 4;
  tlb_exception_code = 5;
  general_exception_code = 6;
}

pub machine-IsMachine : IsMachine machine
machine-IsMachine = record {
  vpn_bit = refl;
  asid_bit = refl;
  get_vpn = λ hi. refl;
  get_asid = λ hi. refl;
  apart = λ s i j b c ne. ==-false (s + 300 + 8 * i) (s + 300 + 8 * j) (λ e. ne (omega (arith, e)));
}

abbrev pub level : Level
level = record {
  current_process = 20;
  p_parent = λ p. 10;
  p_support = update (update (λ p. 0) 10 1000) 20 1000;
  test_pcb = 8;
  ssi_pcb = 9;
  free_support = [];
  sup_asid = λ s. 1;
  sup_except_state = λ s i. record registers { entry_hi = 0x8000_3040 };
  sup_except_context = λ s i. record { stack_ptr = 0; status = 0; pc = 0 };
  pte_hi = update (update (λ a. 0) 1316 0x8000_2040) 1324 0x8000_3040;
  pte_lo = λ a. 0;
  curr_offset = 1;
  swap_pool_table =
      update (λ i. free_frame) 0 (record { sw_asid = 1; sw_page_no = 2; sw_pte = 1316 });
  frame_index = 0;
  swap_mutex_proc = 7;
  curr_mutex_proc = 0;
  terminal_mutex_proc = λ i. 100 + i;
  printer_mutex_proc = λ i. 200 + i;
  terminal_mutex_at = λ i. 0;
  printer_mutex_at = λ i. 0;
  u_proc = 20;
  terminated = [];
  word = update (update (λ a. 0) 5000 3) 5004 6000;
  cpu_status = 1;
  entry_hi = 0;
  entry_lo = 0;
  tlb = λ h. none;
  calls = [];
}
