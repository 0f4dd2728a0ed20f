-- ===== src/Examples/Embeddings.antt =====
-- Texts of which the first is longer than the limit, embedded by a service that answers with the
-- length of each text.
use code_intelegence.Base.{◌≡◌, refl, List, [], ◌∷◌, length, take, drop}
use code_intelegence.Domain.Errors.{ok}
use code_intelegence.Workflow.Bytes.{Bytes}
use code_intelegence.Workflow.Embedding.{
  Vector, OllamaClient, new_ollama_client, truncate_all, embed,
}
use code_intelegence.Workflow.Embedding.Ordered.{vectors_of, embed_lem}

abbrev length_vector : Bytes → Vector
length_vector t = length t ∷ []

abbrev client : OllamaClient
client = new_ollama_client 1 2 (λ texts. ok (vectors_of length_vector texts))

abbrev texts : List Bytes
texts = (97 ∷ 98 ∷ 99 ∷ []) ∷ [] ∷ (97 ∷ []) ∷ []

embedded : embed client texts ≡ ok ((2 ∷ []) ∷ (0 ∷ []) ∷ (1 ∷ []) ∷ [])
unfolding embed take drop
embedded = refl

embed_lem_example : embed client texts ≡ ok (vectors_of length_vector (truncate_all client texts))
embed_lem_example = embed_lem client length_vector (λ ts. refl) (λ t. refl) texts
