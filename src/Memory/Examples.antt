-- ===== src/Memory/Examples.antt =====
-- Runs of the memory store at concrete inputs.
use muslimrentals.Prelude.{◌≡◌, refl, none, some, [], ◌∷◌}
use muslimrentals.Prelude.Table.{find_row}
use muslimrentals.Memory.{
  product, MemoryTable, RecordMemoryInput, RelevantMemoryQuery, new_memory, get_memory,
  get_relevant_memory,
}
use muslimrentals.Memory.Retrieval.{IsRetrieval, get_relevant_memory-IsRetrieval}

abbrev lesson : RecordMemoryInput
lesson = record {
  scope = product;
  role = none;
  type = "lesson";
  content = "Listings need a map";
  source = "c1";
  confidence = some 70;
  product_area = none;
  supersedes = none;
}

abbrev stored : MemoryTable
stored = new_memory "m1" 10 lesson ∷ []

abbrev any_memory : RelevantMemoryQuery
any_memory = record { scopes = none; role = none; product_area = none; limit = none }

get_relevant_memory-IsRetrieval_example :
    IsRetrieval any_memory stored (get_relevant_memory any_memory stored)
get_relevant_memory-IsRetrieval_example = get_relevant_memory-IsRetrieval any_memory stored

lesson_found : get_memory "m1" stored ≡ some (new_memory "m1" 10 lesson)
unfolding get_memory find_row new_memory
lesson_found = refl
