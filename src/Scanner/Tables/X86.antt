-- ===== src/Scanner/Tables/X86.antt =====
-- src/arch/x86/Frequency.hpp: the 512 pairs of bytes, in order, and their scores. A row of the source is
-- one number: its pairs are the digits to base 65536, and its scores those to base 4096.
use libhat.Prelude.{ℕ, List, [], ◌∷◌}
use libhat.Scanner.Tables.{unpack_pairs, unpack_scores}

abbrev pub pairs_x1_rows : List ℕ
pairs_x1_rows =
    0x00000001000F00100033004100440045 ∷ 0x00480049004C004D0066007200740075
    ∷ 0x00800089008B009000C600C700E800E9 ∷ 0x00EB00F300FF0100010F0148014C0174
    ∷ 0x017501BA0200024803000348034C0400 ∷ 0x04480500054805E80600064807000748
    ∷ 0x07FF08000801080F08480849084C0883 ∷ 0x08E808FF090009480A000B480C000C48
    ∷ 0x0C830F000F100F110F1F0F280F290F48 ∷ 0x0F570F580F590F6F0F760F7F0F840F85
    ∷ 0x0F870F950FAF0FB60FB70FC110001001 ∷ 0x1005100F104410481049104C107210E8
    ∷ 0x11001144114511481348180F18481849 ∷ 0x19481C481F7620002001200F20412048
    ∷ 0x2049204C205B205F20E820FF24082410 ∷ 0x24182420242824302438244024482450
    ∷ 0x24582460246824702478248027482800 ∷ 0x28482849284C28E82B482BC12BC8300F
    ∷ 0x30483049304C30E833C033C433C933CC ∷ 0x33D233F6380038483BCA40004008400F
    ∷ 0x4010402040484053408840E84108410F ∷ 0x41104154415541564157415C415D415E
    ∷ 0x415F418B41B841F842084308430C4310 ∷ 0x4318440F442444884489448B448D450F
    ∷ 0x45334608470847104803480F482B4833 ∷ 0x483B48484881488348854889488B488D
    ∷ 0x48B848C148C748FF490F492B493B4983 ∷ 0x4989498B498D49F84B084C244C3B4C89
    ∷ 0x4C8B4C8D4D854D894D8B500850485348 ∷ 0x54245441554155485556564156485657
    ∷ 0x5741574857C057C9580058485BC35C24 ∷ 0x5C5F5D415DC35E415E5D5E5F5F415F5E
    ∷ 0x5FC360486424660F668968486C247048 ∷ 0x721C740574247510760778487C247F44
    ∷ 0x7F458000804881C481EC81FA83C083C1 ∷ 0x83C283C483EC83F883FA83FF84008424
    ∷ 0x84C085C085C985D285DB85F685FF8800 ∷ 0x89018902890389058941894289438944
    ∷ 0x894589468947894C894D8954895C895D ∷ 0x896B896C897389748975897C897D8984
    ∷ 0x89858B008B018B038B048B058B068B07 ∷ 0x8B088B0D8B408B418B428B438B448B45
    ∷ 0x8B468B478B488B498B4B8B4C8B4D8B4E ∷ 0x8B4F8B548B558B5B8B5C8B5D8B738B74
    ∷ 0x8B7C8B808B858B8C8B8D8B9C8BC08BC1 ∷ 0x8BC28BC38BC68BC78BC88BCB8BCD8BCE
    ∷ 0x8BCF8BD08BD38BD68BD78BD88BD98BDA ∷ 0x8BE38BEA8BF08BF18BF28BF88BF98BFA
    ∷ 0x8C248D058D0D8D158D418D448D458D4B ∷ 0x8D4C8D4D8D4F8D548D558D858D8A8D8D
    ∷ 0x8D958D9C90009048904C95C298009C24 ∷ 0xA000A800AAAAB000B001B800C000C00F
    ∷ 0xC048C074C075C0F3C0F8C143C148C1E8 ∷ 0xC1F8C227C248C348C3CCC3E8C420C428
    ∷ 0xC430C448C644C645C648C6F0C743C744 ∷ 0xC745C748C785C7F0C800C848C8E8C90F
    ∷ 0xC948C974C9F3CB48CBE8CBFFCC40CC48 ∷ 0xCCCCCCE8CE48CEE8CF48CFE8D000D048
    ∷ 0xD248D348D648D748D800D848D948DA48 ∷ 0xDB74E000E048E800E848EB03EC20F000
    ∷ 0xF00FF048F0FFF20FF248F30FF801F81F ∷ 0xF848F948FA00FA0FFA10FA48FB48FC48
    ∷ 0xFD48FD90FDFFFE48FE90FEFFFF0FFF15 ∷ 0xFF48FF4CFF50FF74FF90FFC2FFCCFFFF ∷ []

abbrev pub pairs_x1 : List (ℕ × ℕ)
pairs_x1 = unpack_pairs pairs_x1_rows

abbrev pub scores_x1_rows : List ℕ
scores_x1_rows =
    0x0000C00280841C508311B1E300504202F18B14608B0F6137
    ∷ 0x15B1DC10B0BD0D612901D0C111118206500811E0161CB17E
    ∷ 0x0511F902103403E0141DB07C05B0C40B71590FA0A210206D
    ∷ 0x0E90DE1A11970121321410E11C00A31C619C1AD18F1C31D3
    ∷ 0x0CA08702400D0D108E1261340331D01A71811060560380DD
    ∷ 0x1DD19F13D04610F05A0531DE1D11351E40151441231011E6
    ∷ 0x1EF0D40B81601CE15D0441FD1FF0CE0FD12519418A1CF01F
    ∷ 0x13F0C818D1270F31B30BB0A40A501103901B04503105204B
    ∷ 0x0790670B20800EF19208C1BA04F1EE1BF1731D40B11B91F0
    ∷ 0x0271A017C16B06C0D91710D71311A31D504919017F0641B0
    ∷ 0x1951A504712B19E1F30DC05D1721751E00C51151701D70BE
    ∷ 0x10E0AA0C618312E0B31A21381C90E50071BC0DB0F41A61D2
    ∷ 0x08119A1361AF14C07606005003007E02000600B003001004
    ∷ 0x1E707502B0721EC13A0D815A0910090E40EB1F700F199010
    ∷ 0x00C01814E1BD0731BE0681520261771A41BB1531131FA0E8
    ∷ 0x0F005404C1791FE0AE0E30131AC1F50C21781401D81140E0
    ∷ 0x07B09C1EB04D1540D50820BF0F216E02E1580FF12F05E16C
    ∷ 0x16307F1C111A0B909A08D12808A02C03B0230BC1EA1B5098
    ∷ 0x09702A03216A0921D613C1041B61B117B1C810D1480B401A
    ∷ 0x03F1ED0EC0A91681190351801AA1051FC0610ED0AD0FC11C
    ∷ 0x0E707104E07711607A1430FB11F1DA03C0A112A1200D00AC
    ∷ 0x15E14511209F15508906E1E219D1640F913B0631961B80E6
    ∷ 0x1CC1981F616612210713E09510C06F08805F0570251CA06A
    ∷ 0x0400B50F50F81090A60CF1471851E811012C1691030D3167
    ∷ 0x0DA01E04306618909309913004803719105907D19B16F062
    ∷ 0x1391E50C701C1B21E914209D0E21621CD0F71B712D0F1036
    ∷ 0x03A04A0EA1840CB0FE03D1A91870A007005502D1FB0781F4
    ∷ 0x1880B011815010A1AE1AB0690AF0A71C212117A09B0CD16D
    ∷ 0x1F10411DF0940741F80CC01900205C1A80C910008614F090
    ∷ 0x1F21491651171E10A813318E0B615C1571C715F1930AB17D
    ∷ 0x0580EE1240C318602206B09E02914D0961611D9156176108
    ∷ 0x0BA1B41C408F14B0DF11D00E01715117414A0850D218C00A ∷ []

abbrev pub scores_x1 : List (ℕ)
scores_x1 = unpack_scores scores_x1_rows
