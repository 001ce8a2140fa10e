-- ===== src/Tests/Loading.antt =====
-- The loader and the command line at concrete inputs.
use rv32isam.Base.{
  ℕ, zero, suc, ◌+◌, ◌%◌, ◌<◌, ◌≡◌, refl, arith, List, [], ◌∷◌, ◌++◌, none, some, true, false, ◌⊎◌,
  inr, ◌≢◌,
}
use rv32isam.Base.Lists.{get_elem?, Any, All, none_left, and_all}
use rv32isam.Base.Word.{u32}
use rv32isam.BitMath.Align.{IsRoundUp}
use rv32isam.Elf.{Phdr, Shdr, ehdr_at}
use rv32isam.Interpret.State.{Cpu, running}
use rv32isam.Interpret.Run.{interpret}
use rv32isam.Loader.{LoadableSegment}
use rv32isam.Loader.Host.{Host, MappedFile, LoadedExe, returned, mmap_file}
use rv32isam.Loader.Lists.{Store, Nodes, set_node, link, freed, free_nodes}
use rv32isam.Loader.Lists.Laws.{Represents, linked, ended, link-Represents, free_nodes-Represents}
use rv32isam.Loader.Layout.{Placed, layout}
use rv32isam.Loader.Layout.Offset.{IsPowTwo}
use rv32isam.Loader.Layout.Laws.{
  Ascending, last, then_follows, Packed, full, then_packed, IsImage, layout-IsImage,
}
use rv32isam.Loader.Image.{copy_segments}
use rv32isam.Loader.Image.Laws.{IsFilled, Holds, copy_segments-Holds}
use rv32isam.Loader.Sections.{found, not_found, find_offset_for_section}
use rv32isam.Loader.Sections.Laws.{Maps, Avoids, find_offset_for_section_lem}
use rv32isam.Loader.ReadElf.{loadable_segments, loader_read_elf}
use rv32isam.Loader.ReadElf.Laws.{
  IsExecutable, Serves, IsLoadedImage, placed, loader_read_elf-Loads,
}
use rv32isam.Loader.ReadRaw.{loader_read_raw}
use rv32isam.Loader.ReadRaw.Laws.{ServesRaw, IsRawImage, loader_read_raw-Loads}
use rv32isam.Loader.Runs.{IsReadOnly, loaded_program-IsKept}
use rv32isam.Cpu.{CliOptions, mode_raw, mode_elf}
use rv32isam.Cpu.Laws.{Setting, file, with_mode, with_data}

page : IsPowTwo 4096
page = record { exponent = 12; small = omega arith; value = omega arith }

-- A page of 4 bytes of code, and 16 bytes of data.
abbrev text_header : Phdr
text_header = record {
  p_type = 1;
  p_offset = 116;
  p_vaddr = 0x1000;
  p_paddr = 0x1000;
  p_filesz = 4;
  p_memsz = 4;
  p_flags = 5;
  p_align = 0x1000;
}

abbrev data_header : Phdr
data_header = record {
  p_type = 1;
  p_offset = 120;
  p_vaddr = 0x2000;
  p_paddr = 0x2000;
  p_filesz = 0;
  p_memsz = 16;
  p_flags = 6;
  p_align = 0x1000;
}

ascending : Ascending text_header (data_header ∷ [])
ascending =
    then_follows
      record {
        after = omega arith;
        vaddr_fits = omega arith;
        memsz_fits = omega arith;
        align_request = inr page;
      }
      last

layout-IsImage_example :
    IsImage 4096
      (text_header ∷ data_header ∷ [])
      (layout 4096 0x1000 0 text_header (data_header ∷ []))
layout-IsImage_example =
    layout-IsImage 4096 0x1000 page 0 text_header (data_header ∷ []) ascending (omega arith)
      (omega arith)

abbrev two_segments : List LoadableSegment
two_segments =
    record { mem_offset = 0; phdr = text_header }
    ∷ record { mem_offset = 4096; phdr = data_header }
    ∷ []

packed : Packed 0 two_segments 4112
packed = then_packed (omega arith) (then_packed (omega arith) full)

filled : All IsFilled two_segments
filled = and_all (omega arith) (and_all (omega arith) none_left)

copy_segments-Holds_example :
    (bytes' : ℕ → ℕ) × (copy_segments (λ a. a % 256) 4112 (λ a. 0) two_segments ≡ some bytes')
    × All (Holds (λ a. a % 256) bytes') two_segments
    × ((a : ℕ) → a < 0 → bytes' a ≡ 0)
copy_segments-Holds_example = copy_segments-Holds (λ a. a % 256) (λ a. 0) 4112 packed filled

-- A section in the middle of the data.
abbrev section : Shdr
section = record {
  sh_name = 0;
  sh_type = 1;
  sh_flags = 3;
  sh_addr = 0x2008;
  sh_offset = 0;
  sh_size = 8;
  sh_link = 0;
  sh_info = 0;
  sh_addralign = 4;
  sh_entsize = 0;
}

find_offset_for_section_lem_example :
    ((r : ℕ) × (find_offset_for_section section two_segments ≡ found r)
      × Any (Maps 0x2008 r) two_segments)
    ⊎ ((find_offset_for_section section two_segments ≡ not_found)
        × All (Avoids 0x2008) two_segments)
find_offset_for_section_lem_example =
    find_offset_for_section_lem section
      (and_all record { in_program = omega arith; in_image = omega arith }
        (and_all record { in_program = omega arith; in_image = omega arith } none_left))
      (omega arith)

-- The bytes of a list, and 0 beyond.
abbrev byte_at : List ℕ → ℕ → ℕ
byte_at l a = elim (get_elem? l a) [ none ↦ 0 | some b ↦ b ]

abbrev zeros : ℕ → List ℕ
zeros zero = []
zeros (suc n) = 0 ∷ zeros n

-- An ELF file: its header, the two program headers, and one instruction.
abbrev elf_file : List ℕ
elf_file =
    0x7f ∷ 69 ∷ 76 ∷ 70 ∷ 1 ∷ 1 ∷ 1 ∷ 0 ∷ 0 ∷ zeros 7
    ++ (2 ∷ 0 ∷ 243 ∷ 0 ∷ 1 ∷ 0 ∷ 0 ∷ 0 ∷ 0 ∷ 16 ∷ 0 ∷ 0 ∷ 52 ∷ 0 ∷ 0 ∷ 0 ∷ zeros 10
        ++ (32 ∷ 0 ∷ 2 ∷ 0 ∷ zeros 6
            ++ (1 ∷ 0 ∷ 0 ∷ 0 ∷ 116 ∷ 0 ∷ 0 ∷ 0 ∷ 0 ∷ 16 ∷ 0 ∷ 0 ∷ 0 ∷ 16 ∷ 0 ∷ 0 ∷ 4 ∷ 0 ∷ 0 ∷ 0
                ∷ 4 ∷ 0 ∷ 0 ∷ 0 ∷ 5 ∷ 0 ∷ 0 ∷ 0 ∷ 0 ∷ 16 ∷ 0 ∷ 0 ∷ 1 ∷ 0 ∷ 0 ∷ 0 ∷ 120 ∷ 0 ∷ 0 ∷ 0
                ∷ 0 ∷ 32 ∷ 0 ∷ 0 ∷ 0 ∷ 32 ∷ 0 ∷ 0 ∷ 0 ∷ 0 ∷ 0 ∷ 0 ∷ 16 ∷ 0 ∷ 0 ∷ 0 ∷ 6 ∷ 0 ∷ 0 ∷ 0
                ∷ 0 ∷ 16 ∷ 0 ∷ 0 ∷ 0x13 ∷ 1 ∷ 1 ∷ 0xff ∷ [])))

entry_read : (ehdr_at (byte_at elf_file) 0).e_entry ≡ 0x1000
entry_read = refl

executable : IsExecutable 4096 (byte_at elf_file) text_header (data_header ∷ [])
unfolding loadable_segments
executable = record {
  program = record {
    ident = refl;
    machine = refl;
    entry = λ e. absurd (omega (arith, e));
    has_headers = λ e. absurd (omega (arith, e));
    headers = refl;
    ascending = ascending;
    head_fits = omega arith;
    few = omega arith;
    head_align = omega arith;
    filled = and_all (omega arith) (and_all (omega arith) none_left);
  };
  no_relocation = λ i lt. absurd (omega (arith, lt));
}

abbrev mapped_elf : MappedFile
mapped_elf = record { base = 0x7000; size = 120; bytes = byte_at elf_file }

abbrev host : Host
host = record {
  page_size = 4096;
  fstat = inr 120;
  map_file = λ size. inr mapped_elf;
  mmap = λ size. inr 0x20000;
  mmap_fixed = λ address size. inr address;
  mprotect = λ address size prot. 0;
  errno = 0;
}

serves : (size : ℕ) → Serves host mapped_elf size 0x20000
unfolding mmap_file
serves size = record {
  pow_two = page;
  maps_file = refl;
  maps_image = refl;
  protects = λ address length prot. refl;
}

abbrev unset_exe : LoadedExe
unset_exe = record {
  mem = record { base = 0; size = 0; bytes = λ a. 0; readable = λ a. false; writable = λ a. false };
  mem_count = 0;
  entrypoint = 0;
}

abbrev elf_placed : Placed
elf_placed = placed host mapped_elf text_header (data_header ∷ []) unset_exe 0x20000

loader_read_elf-Loads_example :
    (exe' : LoadedExe) × (loader_read_elf host unset_exe ≡ returned 0 exe')
    × IsLoadedImage (byte_at elf_file) elf_placed exe'.mem
    × (exe'.entrypoint ≡ 0)
    × IsImage 4096 (text_header ∷ data_header ∷ []) elf_placed
loader_read_elf-Loads_example =
    loader_read_elf-Loads host mapped_elf text_header (data_header ∷ []) unset_exe 0x20000
      executable (serves elf_placed.end)

loaded_program-IsKept_example :
    (exe' : LoadedExe) × (loader_read_elf host unset_exe ≡ returned 0 exe')
    × ((rounds : ℕ) (cpu : Cpu)
        → interpret exe'.mem (u32 exe'.entrypoint) rounds ≡ running cpu
        → All
            (λ (s : LoadableSegment). IsReadOnly s → Holds (byte_at elf_file) cpu.memory.bytes s)
            elf_placed.segms)
loaded_program-IsKept_example =
    loaded_program-IsKept host mapped_elf text_header (data_header ∷ []) unset_exe 0x20000
      executable (serves elf_placed.end)

serves_raw : ServesRaw host mapped_elf
unfolding mmap_file
serves_raw = record { pow_two = page; maps_file = refl; maps_below = λ address size. refl }

loader_read_raw-Loads_example :
    (exe' : LoadedExe) × (loader_read_raw host 100 unset_exe ≡ returned 0 exe')
    × IsRoundUp 100 4096 exe'.entrypoint
    × IsRawImage mapped_elf exe'
    × ((rounds : ℕ) (cpu : Cpu) (j : ℕ)
        → interpret exe'.mem (u32 exe'.entrypoint) rounds ≡ running cpu
        → cpu.memory.bytes (exe'.entrypoint + j) ≡ byte_at elf_file j)
loader_read_raw-Loads_example =
    loader_read_raw-Loads host mapped_elf unset_exe 100 serves_raw (omega arith) (omega arith)

abbrev garbage : CliOptions
garbage = record { input_file = none; mode = mode_elf; empend_segment_size = 7; wants_help = true }

-- --mode raw a.out --empend-segment 4096
abbrev raw_settings : List Setting
raw_settings = with_mode mode_raw ∷ file "a.out" ∷ with_data "4096" ∷ []

-- A list of one segment, whose node is at 5.
abbrev first_node : ℕ × LoadableSegment
first_node = (5, record { mem_offset = 0; phdr = text_header })

abbrev one_segment : Store LoadableSegment
one_segment = record {
  nodes = set_node (λ a. none) 5 (some record { next = none; value = first_node.1 });
  list = record { tail = some 5; head = some 5 };
}

one_segment-Represents : Represents one_segment (first_node ∷ [])
one_segment-Represents = record { chain = linked 5 first_node.1 refl none_left ended; tail = refl }

abbrev second_segment : LoadableSegment
second_segment = record { mem_offset = 4096; phdr = data_header }

link-Represents_example :
    (store' : Store LoadableSegment) × (link 9 second_segment one_segment ≡ some store')
    × Represents store' (first_node ∷ (9, second_segment) ∷ [])
link-Represents_example =
    link-Represents one_segment (first_node ∷ []) 9 second_segment one_segment-Represents refl

free_nodes-Represents_example :
    (nodes' : Nodes LoadableSegment) × (free_nodes 1 (some 5) one_segment.nodes ≡ freed nodes')
    × All (λ (y : ℕ × LoadableSegment). nodes' y.0 ≡ none) (first_node ∷ [])
    × ((a : ℕ)
        → All (λ (y : ℕ × LoadableSegment). a ≢ y.0) (first_node ∷ [])
        → nodes' a ≡ one_segment.nodes a)
free_nodes-Represents_example =
    free_nodes-Represents one_segment (first_node ∷ []) one_segment-Represents
